-- ===== src/LanStart/Keys.antt =====
-- src/pef_config.cpp, `parsePefConfToDbus`: what a start shows of a LAN interface, key by key of its
-- configuration.
use mathlib.Core.Option.{some-injective}
use platform_event_filter.Common.{
  ℕ, ◌≡◌, refl, sym, ap, ◌∙◌, arith, inl, inr, Bool-cases, true, Option, none, some, Option-cases,
  List, String,
}
use platform_event_filter.Common.Options.{◌>>=◌, >>=-some}
use platform_event_filter.LanJson.{Saved, Config}
use platform_event_filter.LanProperties.{LanProperties}
use platform_event_filter.LanStart.{
  ensure_sized, community_of, count_of, texts_of, bytes_of, has_flat_arrays, zero_ipv6, Shown,
  read_vectors, shown_vectors, shown_arrays, with_count, with_community, show_lan,
}

abbrev pub sized_texts : ℕ → String → Option Saved → Option (List String)
sized_texts n fill o = texts_of o >>= λ v. some (ensure_sized n fill v)

abbrev pub sized_bytes : ℕ → ℕ → Option Saved → Option (List ℕ)
sized_bytes n fill o = bytes_of o >>= λ v. some (ensure_sized n fill v)

-- The properties are those that a start with this configuration shows, key by key.
pub record IsShown (cfg : Config) (n : ℕ) (p : LanProperties) : Type 0 where
  pub community : community_of (cfg "CommunityString") ≡ some p.community_string
  pub count : count_of (cfg "NumberofDestinations") ≡ some n
  pub arrays : has_flat_arrays cfg ≡ true
  pub ipv4 : sized_texts n "0.0.0.0" (cfg "IPv4") ≡ some p.ipv4
  pub ipv6 : sized_texts n zero_ipv6 (cfg "IPv6") ≡ some p.ipv6
  pub user_name : sized_texts n "" (cfg "UserName") ≡ some p.user_name
  pub types : sized_bytes n 0 (cfg "Type") ≡ some p.types
  pub timeout : sized_bytes n 0 (cfg "Timeout") ≡ some p.timeout
  pub retries : sized_bytes n 0 (cfg "Retries") ≡ some p.retries
  pub address_type : sized_bytes n 1 (cfg "AddressType") ≡ some p.address_type
  pub shared : p.shared_types ≡ p.types

sized_in :
    {A : Type 0} (n : ℕ) (fill : A) (o : Option (List A)) {v : List A}
    → (o >>= λ x. some (ensure_sized n fill x)) ≡ some v
    → (x : List A) × (o ≡ some x) × (ensure_sized n fill x ≡ v)
sized_in n fill none h = cc
sized_in n fill (some x) h = (x, refl, cc)

module _ (cfg : Config) where
  read_vectors-IsShown :
      (n : ℕ) (p : LanProperties) → IsShown cfg n p → read_vectors cfg p.community_string n ≡ some p
  unfolding read_vectors
  read_vectors-IsShown n p s =
      let (ipv4, r1, e1) = sized_in n "0.0.0.0" (texts_of (cfg "IPv4")) s.ipv4 in
      let (ipv6, r2, e2) = sized_in n zero_ipv6 (texts_of (cfg "IPv6")) s.ipv6 in
      let (user_name, r3, e3) = sized_in n "" (texts_of (cfg "UserName")) s.user_name in
      let (types, r4, e4) = sized_in n 0 (bytes_of (cfg "Type")) s.types in
      let (retries, r5, e5) = sized_in n 0 (bytes_of (cfg "Retries")) s.retries in
      let (timeout, r6, e6) = sized_in n 0 (bytes_of (cfg "Timeout")) s.timeout in
      let (address_type, r7, e7) = sized_in n 1 (bytes_of (cfg "AddressType")) s.address_type in
      rw (r1, r2, r3, r4, r5, r6, r7) (rw (e1, e2, e3, e4, e5, e6, e7, sym s.shared) refl)

  pub show_lan-full : (n : ℕ) (p : LanProperties) → IsShown cfg n p → show_lan cfg ≡ Shown.full n p
  unfolding show_lan with_community with_count shown_arrays shown_vectors
  show_lan-full n p s =
      rw (s.community, with_community)
        (rw (s.count, with_count) (rw (s.arrays, read_vectors-IsShown n p s, shown_vectors) refl))

  vectors_shown :
      (community : String) (n : ℕ) (p : LanProperties)
      → read_vectors cfg community n ≡ some p
      → community_of (cfg "CommunityString") ≡ some community
      → count_of (cfg "NumberofDestinations") ≡ some n
      → has_flat_arrays cfg ≡ true
      → IsShown cfg n p
  unfolding read_vectors
  vectors_shown community n p h c k a =
      let (ipv4, r1, h1) = >>=-some (texts_of (cfg "IPv4")) _ h in
      let (ipv6, r2, h2) = >>=-some (texts_of (cfg "IPv6")) _ h1 in
      let (user_name, r3, h3) = >>=-some (texts_of (cfg "UserName")) _ h2 in
      let (types, r4, h4) = >>=-some (bytes_of (cfg "Type")) _ h3 in
      let (retries, r5, h5) = >>=-some (bytes_of (cfg "Retries")) _ h4 in
      let (timeout, r6, h6) = >>=-some (bytes_of (cfg "Timeout")) _ h5 in
      let (address_type, r7, h7) = >>=-some (bytes_of (cfg "AddressType")) _ h6 in
      let same = some-injective _ p h7 in
      record {
        community = c ∙ ap (λ (q : LanProperties). some q.community_string) same;
        count = k;
        arrays = a;
        ipv4 = rw (r1) (ap (λ (q : LanProperties). some q.ipv4) same);
        ipv6 = rw (r2) (ap (λ (q : LanProperties). some q.ipv6) same);
        user_name = rw (r3) (ap (λ (q : LanProperties). some q.user_name) same);
        types = rw (r4) (ap (λ (q : LanProperties). some q.types) same);
        timeout = rw (r6) (ap (λ (q : LanProperties). some q.timeout) same);
        retries = rw (r5) (ap (λ (q : LanProperties). some q.retries) same);
        address_type = rw (r7) (ap (λ (q : LanProperties). some q.address_type) same);
        shared =
            sym (ap (λ (q : LanProperties). q.shared_types) same)
            ∙ ap (λ (q : LanProperties). q.types) same;
      }

  shown_vectors-full :
      (o : Option LanProperties) (community : String) (m n : ℕ) (p : LanProperties)
      → shown_vectors o community m ≡ Shown.full n p
      → (o ≡ some p) × (m ≡ n)
  unfolding shown_vectors
  shown_vectors-full none community m n p h = absurd (ground arith)
  shown_vectors-full (some q) community m n p h = (ground arith, ground arith)

  shown_arrays-full :
      (community : String) (m n : ℕ) (p : LanProperties)
      → shown_arrays cfg community m ≡ Shown.full n p
      → (has_flat_arrays cfg ≡ true) × (read_vectors cfg community m ≡ some p) × (m ≡ n)
  unfolding shown_arrays
  shown_arrays-full community m n p h = elim (Bool-cases (has_flat_arrays cfg)) [
    | inl e ↦
        let (read, same) =
          shown_vectors-full (read_vectors cfg community m) community m n p (rw (e) at h) in
        (e, read, same)
    | inr e ↦ absurd (ground (arith, h, e))
  ]

  pub full-IsShown : (n : ℕ) (p : LanProperties) → show_lan cfg ≡ Shown.full n p → IsShown cfg n p
  unfolding show_lan with_community with_count
  full-IsShown n p h = elim (Option-cases (community_of (cfg "CommunityString"))) [
    | inl e ↦ absurd (ground (arith, h, e))
    | inr (community, e) ↦ elim (Option-cases (count_of (cfg "NumberofDestinations"))) [
      | inl f ↦ absurd (ground (arith, h, e, f))
      | inr (m, f) ↦
          let (arrays, read, same) =
            shown_arrays-full community m n p (rw (e, with_community, f, with_count) at h) in
          vectors_shown community n p (rw (same) at read) e (rw (same) at f) arrays
    ]
  ]
