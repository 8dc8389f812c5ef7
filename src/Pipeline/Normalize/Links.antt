-- ===== src/Pipeline/Normalize/Links.antt =====
-- Which links may reach an href.
use job_aggregator.Prelude.{
  String, true, ◌&&◌, ◌||◌, ◌⊎◌, inl, inr, ◌==◌, ◌≡◌, refl, contains, arith, eq_iff, Bool-cases,
}
use job_aggregator.Pipeline.Normalize.{
  Parts, UrlLib, allowed_url_schemes, canonical_parts, canonical_url,
}

module _ (lib : UrlLib) where
  canonical_parts-scheme :
      (parts : Parts)
      → lib.lower "https" ≡ "https"
      → (parts.scheme == "" || contains allowed_url_schemes (lib.lower parts.scheme)) ≡ true
      → contains allowed_url_schemes (canonical_parts lib parts).scheme ≡ true
  unfolding canonical_parts
  canonical_parts-scheme parts https h = elim (Bool-cases (parts.scheme == "")) [
    | inl e ↦ rw (e, https) (unfold contains in refl)
    | inr e ↦ rw e (rw e at h)
  ]

  -- A link that comes out of the canonicaliser is empty, or is the stripped text of a link with
  -- neither scheme nor host, or is put together from parts whose scheme is http or https.
  pub canonical_url-safe :
      (url : String)
      → lib.lower "https" ≡ "https"
      → (canonical_url lib url ≡ "")
        ⊎ ((canonical_url lib url ≡ lib.strip url)
            × ((lib.urlsplit (lib.strip url)).scheme ≡ "")
            × ((lib.urlsplit (lib.strip url)).netloc ≡ ""))
        ⊎ ((parts : Parts) × (canonical_url lib url ≡ lib.urlunsplit parts)
            × (contains allowed_url_schemes parts.scheme ≡ true))
  unfolding canonical_url
  canonical_url-safe url https =
      let parts = lib.urlsplit (lib.strip url) in
      elim (Bool-cases (lib.strip url == "")) [
        | inl e ↦ inl (rw (e, canonical_url))
        | inr e ↦ elim (Bool-cases (parts.scheme == "" && parts.netloc == "")) [
          | inl bare ↦ inr (
              inl (
                ground arith,
                ground (arith, eq_iff parts.scheme ""),
                ground (arith, eq_iff parts.netloc ""),
              ))
          | inr named ↦
              elim (Bool-cases
                (parts.scheme == "" || contains allowed_url_schemes (lib.lower parts.scheme))) [
                  | inl good ↦ inr (
                      inr (
                        canonical_parts lib parts,
                        ground arith,
                        canonical_parts-scheme parts https good,
                      ))
                  | inr bad ↦ inl (ground arith)
                ]
        ]
      ]
