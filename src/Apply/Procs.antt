-- ===== src/Apply/Procs.antt =====
-- apply/procs.py: the registry of running apply agents, and the switch that stops them.
pub mod Stop
use Prim.Native.String
use Prim.Native.String.{◌++◌ as text_append}
use text.Mathlib.Text.{find?}
use job_aggregator.Prelude.{
  ℕ, suc, ◌+◌, String, Bool, true, false, ◌&&◌, Option, none, some, List, [], ◌∷◌, ◌++◌, any, eqb,
  filter, if◌then◌else◌, is_some, length, map,
}
use job_aggregator.Resume.Words.{join_texts}

-- str.split, str.isdigit, int and str; the file system and the processes: `cmdline n pid` is what
-- the look with the number `n` at /proc reads, with blanks for NULs and `none` for an OSError,
-- `group_of` is getpgid, and `signals_group` says whether killpg succeeds. `int` is taken to read each
-- word of digits; the ValueError for a digit outside ASCII is not modelled.
pub record Host : Type 0 where
  pub split : String → List String
  pub is_digits : String → Bool
  pub int : String → ℕ
  pub str : ℕ → String
  pub cmdline : ℕ → ℕ → Option String
  pub group_of : ℕ → Option ℕ
  pub signals_group : ℕ → Bool
  pub is_writable : Bool

pub data Signal : Type 0 where
  term kill : Signal

-- A signal for an apply agent: to its process group, or to the process alone.
pub record Sent : Type 0 where
  pub signal : Signal
  pub pid : ℕ
  pub group : Option ℕ

-- dict.fromkeys: the first of equal entries
unfoldable pub from_keys : List ℕ → List ℕ → List ℕ
from_keys seen [] = []
from_keys seen (p ∷ ps) =
    let again = any (λ q. eqb q p) seen in
    let without = from_keys seen ps in
    let with = from_keys (p ∷ seen) ps in if again then without else p ∷ with

module _ (host : Host) where
  open host use {split, is_digits, int, str, cmdline, group_of, signals_group, is_writable}

  unfoldable pub is_apply_proc : ℕ → ℕ → Bool
  is_apply_proc n pid = elim (cmdline n pid) [
    | none ↦ false
    | some cmd ↦
        is_some (find? cmd "job_aggregator") && is_some (find? (text_append " " cmd) " apply")
  ]

  unfoldable pub register_pid : Option String → ℕ → Option String
  register_pid none pid = some (text_append (str pid) "\n")
  register_pid (some text) pid = some (text_append text (text_append (str pid) "\n"))

  unfoldable pub read_pids : Option String → List ℕ
  read_pids none = []
  read_pids (some text) = map int (filter is_digits (split text))

  -- The entries that a look finds to be apply agents; the looks are numbered from `n`.
  unfoldable pub alive : ℕ → List ℕ → List ℕ
  alive n [] = []
  alive n (p ∷ ps) = let rest = alive (suc n) ps in if is_apply_proc n p then p ∷ rest else rest

  -- write_text, whose OSError is suppressed
  abbrev pub write : Option String → String → Option String
  write old text = if is_writable then some text else old

  abbrev pub print_pids : List ℕ → String
  print_pids pids = join_texts "" (map (λ p. text_append (str p) "\n") pids)

  -- The live agents, and the file as it is pruned to them.
  unfoldable pub live_pids : ℕ → Option String → List ℕ × Option String
  unfolding read_pids from_keys alive
  live_pids n file =
      let live = alive n (from_keys [] (read_pids file)) in (live, write file (print_pids live))

  -- The group that killpg reaches; the process alone is signalled where there is none.
  unfoldable pub reached : Option ℕ → Option ℕ
  reached none = none
  reached (some g) = if signals_group g then some g else none

  unfoldable pub signal_group : Signal → ℕ → Sent
  unfolding reached
  signal_group sig pid = record { signal = sig; pid = pid; group = reached (group_of pid) }

  -- What stop_all returns, the signals in their order, and the file.
  pub record Stopped : Type 0 where
    pub signalled : ℕ
    pub sent : List Sent
    pub file : Option String

  -- The looks after the grace period follow those of live_pids.
  unfoldable pub stop_all : ℕ → Option String → Stopped
  unfolding live_pids signal_group
  stop_all n file =
      let out = live_pids n file in
      let later = n + length (from_keys [] (read_pids file)) in
      record {
        signalled = length out.0;
        sent = map (signal_group term) out.0 ++ map (signal_group kill) (alive later out.0);
        file = write out.1 "";
      }
