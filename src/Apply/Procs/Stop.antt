-- ===== src/Apply/Procs/Stop.antt =====
-- Whom the switch signals.
use job_aggregator.Prelude.{
  sym, none, ◌<◌, some, ◌≤◌, All-concat, ℕ, suc, ◌+◌, String, Bool, true, false, not, ◌&&◌, Option,
  List, [], ◌∷◌, ◌++◌, ◌≡◌, refl, ap, ◌∙◌, arith, All, any, count, eqb, length, map, to_ℕ,
  if◌then◌else◌, Bool-cases, inl, inr,
}
use job_aggregator.Resume.Guard.Bullets.{All-map}
use job_aggregator.Apply.Procs.{
  reached, Host, Signal, term, kill, Sent, from_keys, is_apply_proc, read_pids, alive, live_pids,
  signal_group, stop_all,
}

abbrev pub has : List ℕ → ℕ → Bool
has ps p = any (λ q. eqb q p) ps

has_self : (ps : List ℕ) → All (λ p. has ps p ≡ true) ps
has_self [] = tt
has_self (p ∷ ps) = (
  ground arith,
  All-map (λ q. has ps q ≡ true) (λ q. has (p ∷ ps) q ≡ true) ps (λ q h. ground (arith, h))
      (has_self ps),
)

from_keys-All : (P : ℕ → Type 0) (seen ps : List ℕ) → All P ps → All P (from_keys seen ps)
unfolding from_keys
from_keys-All P seen [] h = tt
from_keys-All P seen (p ∷ ps) h = elim (Bool-cases (has seen p)) [
  | inl e ↦ rw e (from_keys-All P seen ps (h.1))
  | inr e ↦ rw e (h.0, from_keys-All P (p ∷ seen) ps (h.1))
]

count-from_keys :
    (p : ℕ) (seen ps : List ℕ)
    → count (λ q. eqb q p) (from_keys seen ps) ≡ to_ℕ (not (has seen p) && has ps p)
unfolding from_keys
count-from_keys p seen [] = ground arith
count-from_keys p seen (q ∷ ps) =
    ground (arith, count-from_keys p seen ps, count-from_keys p (q ∷ seen) ps)

abbrev pub is_term : Signal → Bool
is_term term = true
is_term kill = false

-- How many signals of the kind there are.
abbrev pub n_signals : (Signal → Bool) → List Sent → ℕ
n_signals kind sent = count (λ s. kind s.signal) sent

n_signals-concat :
    (kind : Signal → Bool) (xs ys : List Sent)
    → n_signals kind (xs ++ ys) ≡ n_signals kind xs + n_signals kind ys
n_signals-concat kind [] ys = omega arith
n_signals-concat kind (x ∷ xs) ys = omega (arith, n_signals-concat kind xs ys)

-- How many signals of the kind the pid gets.
abbrev pub n_sent : (Signal → Bool) → ℕ → List Sent → ℕ
n_sent kind p sent = count (λ s. kind s.signal && eqb s.pid p) sent

n_sent-concat :
    (kind : Signal → Bool) (p : ℕ) (xs ys : List Sent)
    → n_sent kind p (xs ++ ys) ≡ n_sent kind p xs + n_sent kind p ys
n_sent-concat kind p [] ys = omega arith
n_sent-concat kind p (x ∷ xs) ys = omega (arith, n_sent-concat kind p xs ys)

module _ (host : Host) where
  -- A registered process that one of the looks numbered from `first` and below `bound` found to be an
  -- apply agent.
  abbrev pub IsSeen : Option String → ℕ → ℕ → ℕ → Type 0
  IsSeen file first bound p =
      (has (read_pids host file) p ≡ true)
      × (at : ℕ) × (first ≤ at)
      × (at < bound)
      × (is_apply_proc host at p ≡ true)

  -- The group that is signalled, if any, is that of the process itself.
  abbrev pub HitsOwn : Sent → Type 0
  HitsOwn s = (g : ℕ) → s.group ≡ some g → host.group_of s.pid ≡ some g

  -- The first look after the grace period, and the one after the last: the look for live agents is at
  -- each registered number once, and the second look at each live agent.
  abbrev pub later_of : Option String → ℕ → ℕ
  later_of file n = n + length (from_keys [] (read_pids host file))

  abbrev pub bound_of : Option String → ℕ → ℕ
  bound_of file n = later_of file n + length (live_pids host n file).0

  -- Whom one signal of the call whose first look is `n` may go to.
  abbrev pub IsOurs : Option String → ℕ → Sent → Type 0
  IsOurs file n s =
      IsSeen file n (later_of file n) s.pid
      × (is_term s.signal ≡ false → IsSeen file (later_of file n) (bound_of file n) s.pid)
      × HitsOwn s

  alive-All :
      (P : ℕ → Type 0) (n : ℕ) (ps : List ℕ)
      → All P ps
      → All
          (λ p. P p × (at : ℕ) × (n ≤ at) × (at < n + length ps) × (is_apply_proc host at p ≡ true))
          (alive host n ps)
  unfolding alive
  alive-All P n [] h = tt
  alive-All P n (p ∷ ps) h =
      let rest =
        All-map _
          (λ p'.
            P p'
            × (at : ℕ) × (n ≤ at)
            × (at < n + length (p ∷ ps))
            × (is_apply_proc host at p' ≡ true))
          (alive host (suc n) ps)
          (λ q k.
            let (held, at, low, high, e) = k in
            (held, at, omega (arith, low), omega (arith, high), e))
          (alive-All P (suc n) ps (h.1)) in
      elim (Bool-cases (is_apply_proc host n p)) [
        | inl e ↦ rw e ((h.0, n, omega arith, omega arith, e), rest)
        | inr e ↦ rw e rest
      ]

  reached-own : (o : Option ℕ) (g : ℕ) → reached host o ≡ some g → o ≡ some g
  unfolding reached
  reached-own none g e = cc
  reached-own (some k) g e = elim (Bool-cases (host.signals_group k)) [
    | inl on ↦ ap (λ b. if b then some k else none) (sym on) ∙ e
    | inr off ↦ absurd (ground (arith, off, e))
  ]

  map-IsOurs :
      (Q : Sent → Type 0) (P : ℕ → Type 0) (sig : Signal) (ps : List ℕ)
      → ((p : ℕ) → P p → Q (signal_group host sig p))
      → All P ps
      → All Q (map (signal_group host sig) ps)
  map-IsOurs Q P sig [] f h = tt
  map-IsOurs Q P sig (p ∷ ps) f h = (f p h.0, map-IsOurs Q P sig ps f (h.1))

  n_signals-map :
      (kind : Signal → Bool) (sig : Signal) (ps : List ℕ)
      → n_signals kind (map (signal_group host sig) ps) ≡ (if kind sig then length ps else 0)
  unfolding signal_group
  n_signals-map kind sig [] = ground arith
  n_signals-map kind sig (p ∷ ps) = ground (arith, n_signals-map kind sig ps)

  -- Every signal of a call goes to a registered process that one of the looks before the first signal
  -- found to be an apply agent; SIGKILL goes only where one of the looks after the grace period found
  -- it again. The process group that is signalled, if any, is that of the process itself. The switch
  -- returns the number of processes that it asked to terminate.
  pub stop_all-IsOurs :
      (n : ℕ) (file : Option String)
      → All (IsOurs file n) (stop_all host n file).sent
        × ((stop_all host n file).signalled ≡ n_signals is_term (stop_all host n file).sent)
  unfolding stop_all live_pids signal_group
  stop_all-IsOurs n file =
      let registered = read_pids host file in
      let unique = from_keys [] registered in
      let later = n + length unique in
      let live = alive host n unique in
      let known =
        from_keys-All (λ p. has registered p ≡ true) [] registered (has_self registered) in
      let ours = alive-All (λ p. has registered p ≡ true) n unique known in
      let still = alive-All (IsSeen file n later) later live ours in
      (
        All-concat (IsOurs file n) (map (signal_group host term) live)
            (map (signal_group host kill) (alive host later live))
            (map-IsOurs (IsOurs file n) (IsSeen file n later) term live
              (λ p h. (h, (λ e. cc), λ g e. reached-own _ g e)) ours)
            (map-IsOurs (IsOurs file n) _ kill _
              (λ p h.
                let (seen, at, low, high, again) = h in
                (seen, (λ e. (seen.0, at, low, high, again)), λ g e. reached-own _ g e))
              still),
        omega (
          arith,
          n_signals-concat is_term (map (signal_group host term) live)
              (map (signal_group host kill) (alive host later live)),
          n_signals-map is_term term live,
          n_signals-map is_term kill (alive host later live),
        ),
      )

  count-alive :
      (p n : ℕ) (ps : List ℕ)
      → ((at : ℕ) → is_apply_proc host at p ≡ true)
      → count (λ q. eqb q p) (alive host n ps) ≡ count (λ q. eqb q p) ps
  unfolding alive
  count-alive p n [] stuck = refl
  count-alive p n (q ∷ ps) stuck = elim (Bool-cases (eqb q p)) [
    | inl e ↦
        let here : is_apply_proc host n q ≡ true =
          ap (λ x. is_apply_proc host n x) (ground (arith, e)) ∙ stuck n in
        rw here (ap (λ k. to_ℕ (eqb q p) + k) (count-alive p (suc n) ps stuck))
    | inr e ↦ ground (arith, e, count-alive p (suc n) ps stuck)
  ]

  n_sent-map :
      (kind : Signal → Bool) (sig : Signal) (p : ℕ) (ps : List ℕ)
      → n_sent kind p (map (signal_group host sig) ps)
        ≡ (if kind sig then count (λ q. eqb q p) ps else 0)
  unfolding signal_group
  n_sent-map kind sig p [] = ground arith
  n_sent-map kind sig p (q ∷ ps) = ground (arith, n_sent-map kind sig p ps)

  -- A registered agent that ignores the first signal, so that every look still finds it, is asked
  -- to terminate once and killed once, however often it was registered.
  pub stop_all-stuck :
      (n : ℕ) (file : Option String) (p : ℕ)
      → has (read_pids host file) p ≡ true
      → ((at : ℕ) → is_apply_proc host at p ≡ true)
      → (n_sent is_term p (stop_all host n file).sent ≡ 1)
        × (n_sent (λ s. not (is_term s)) p (stop_all host n file).sent ≡ 1)
  unfolding stop_all live_pids
  stop_all-stuck n file p h stuck =
      let registered = read_pids host file in
      let unique = from_keys [] registered in
      let live = alive host n unique in
      let later = n + length unique in
      let once : count (λ q. eqb q p) live ≡ 1 =
        count-alive p n unique stuck ∙ ground (arith, h, count-from_keys p [] registered) in
      let again = count-alive p later live stuck in
      let firm = λ (s : Signal). not (is_term s) in
      let first = map (signal_group host term) live in
      let second = map (signal_group host kill) (alive host later live) in
      (
        omega (
          arith,
          n_sent-concat is_term p first second,
          n_sent-map is_term term p live,
          n_sent-map is_term kill p (alive host later live),
          once,
        ),
        omega (
          arith,
          n_sent-concat firm p first second,
          n_sent-map firm term p live,
          n_sent-map firm kill p (alive host later live),
          once,
          again,
        ),
      )
