-- ===== src/LanStart/Values.antt =====
-- src/pef_config.cpp: a new value in the configuration of a LAN interface, and what a start shows of it.
use native.Mathlib.Nat.{mod-eq_of_lt}
use platform_event_filter.Common.{
  ℕ, ◌≤◌, ◌<◌, ◌≡◌, refl, ap, arith, inl, inr, ◌&&◌, Bool-cases, Bool, true, if◌then◌else◌, some,
  List, [], ◌∷◌, String, ◌===◌, length, All,
}
use platform_event_filter.LanJson.{Saved, numbers, texts, Config, put_value}
use platform_event_filter.LanProperties.{LanProperties, Request}
use platform_event_filter.LanStart.{
  ensure_sized, community_of, is_array, to_bytes, texts_of, bytes_of, has_flat_arrays,
}
use platform_event_filter.LanProperties.Steps.{key_of, value_of}
use platform_event_filter.LanStart.Keys.{IsShown, sized_texts, sized_bytes}

-- The properties after a write that is taken.
abbrev pub with_value : Request → LanProperties → LanProperties
with_value (Request.set_community_string v) p = record p { community_string = v }
with_value (Request.set_ipv4 v) p = record p { ipv4 = v }
with_value (Request.set_ipv6 v) p = record p { ipv6 = v }
with_value (Request.set_user_name v) p = record p { user_name = v }
with_value (Request.set_types v) p = record p { types = v; shared_types = v }
with_value (Request.set_timeout v) p = record p { timeout = v }
with_value (Request.set_retries v) p = record p { retries = v }
with_value (Request.set_address_type v) p = record p { address_type = v }

-- A write of a byte, or text, for each destination at least.
abbrev pub Fits : ℕ → Request → Type 0
Fits n (Request.set_community_string v) = Unit
Fits n (Request.set_ipv4 v) = n ≤ length v
Fits n (Request.set_ipv6 v) = n ≤ length v
Fits n (Request.set_user_name v) = n ≤ length v
Fits n (Request.set_types v) = (n ≤ length v) × All (λ b. b < 256) v
Fits n (Request.set_timeout v) = (n ≤ length v) × All (λ b. b < 256) v
Fits n (Request.set_retries v) = (n ≤ length v) × All (λ b. b < 256) v
Fits n (Request.set_address_type v) = (n ≤ length v) × All (λ b. b < 256) v

ensure_sized_enough :
    {A : Type 0} (n : ℕ) (fill : A) (v : List A) → n ≤ length v → ensure_sized n fill v ≡ v
unfolding ensure_sized
ensure_sized_enough n fill v h = ground arith

to_bytes_id : (v : List ℕ) → All (λ b. b < 256) v → to_bytes v ≡ v
unfolding to_bytes
to_bytes_id [] h = refl
to_bytes_id (b ∷ v) h = rw (mod-eq_of_lt h.0, to_bytes_id v h.1) refl

texts_kept :
    (n : ℕ) (fill : String) (v : List String)
    → n ≤ length v
    → sized_texts n fill (some (texts v)) ≡ some v
unfolding texts_of
texts_kept n fill v h = ap some (ensure_sized_enough n fill v h)

bytes_kept :
    (n fill : ℕ) (v : List ℕ)
    → n ≤ length v
    → All (λ b. b < 256) v
    → sized_bytes n fill (some (numbers v)) ≡ some v
unfolding bytes_of
bytes_kept n fill v h b = rw (to_bytes_id v b) (ap some (ensure_sized_enough n fill v h))

six_true :
    (a b c d e f : Bool)
    → (a && (b && (c && (d && (e && f))))) ≡ true
    → (a ≡ true) × (b ≡ true) × (c ≡ true) × (d ≡ true) × (e ≡ true) × (f ≡ true)
six_true a b c d e f h = ground arith

all_true :
    (a b c d e f : Bool)
    → a ≡ true
    → b ≡ true
    → c ≡ true
    → d ≡ true
    → e ≡ true
    → f ≡ true
    → (a && (b && (c && (d && (e && f))))) ≡ true
all_true a b c d e f h i j k l m = ground arith

-- Which of the arrays a write replaces.
put_array :
    (cfg : Config) (key : String) (value : Saved)
    → is_array (some value) ≡ true
    → has_flat_arrays cfg ≡ true
    → has_flat_arrays (put_value key value cfg) ≡ true
unfolding has_flat_arrays put_value
put_array cfg key value v h =
    let (a, b, c, d, e, f) = six_true _ _ _ _ _ _ h in
    all_true _ _ _ _ _ _ (at "IPv4" a) (at "IPv6" b) (at "UserName" c) (at "Type" d)
      (at "Timeout" e) (at "Retries" f)
  where
    at :
        (k : String)
        → is_array (cfg k) ≡ true
        → is_array (if k === key then some value else cfg k) ≡ true
    at k a = elim (Bool-cases (k === key)) [ inl e ↦ rw (e) v | inr e ↦ rw (e) a ]

module _ (cfg : Config) (n : ℕ) (p : LanProperties) where
  pub put_value-IsShown :
      (r : Request)
      → Fits n r
      → IsShown cfg n p
      → IsShown (put_value (key_of r) (value_of r) cfg) n (with_value r p)
  unfolding put_value key_of value_of has_flat_arrays is_array community_of
  put_value-IsShown (Request.set_community_string v) h s = record {
    community = refl;
    count = s.count;
    arrays = s.arrays;
    ipv4 = s.ipv4;
    ipv6 = s.ipv6;
    user_name = s.user_name;
    types = s.types;
    timeout = s.timeout;
    retries = s.retries;
    address_type = s.address_type;
    shared = s.shared;
  }
  put_value-IsShown (Request.set_ipv4 v) h s = record {
    community = s.community;
    count = s.count;
    arrays = put_array cfg "IPv4" (texts v) refl s.arrays;
    ipv4 = texts_kept n _ v h;
    ipv6 = s.ipv6;
    user_name = s.user_name;
    types = s.types;
    timeout = s.timeout;
    retries = s.retries;
    address_type = s.address_type;
    shared = s.shared;
  }
  put_value-IsShown (Request.set_ipv6 v) h s = record {
    community = s.community;
    count = s.count;
    arrays = put_array cfg "IPv6" (texts v) refl s.arrays;
    ipv4 = s.ipv4;
    ipv6 = texts_kept n _ v h;
    user_name = s.user_name;
    types = s.types;
    timeout = s.timeout;
    retries = s.retries;
    address_type = s.address_type;
    shared = s.shared;
  }
  put_value-IsShown (Request.set_user_name v) h s = record {
    community = s.community;
    count = s.count;
    arrays = put_array cfg "UserName" (texts v) refl s.arrays;
    ipv4 = s.ipv4;
    ipv6 = s.ipv6;
    user_name = texts_kept n _ v h;
    types = s.types;
    timeout = s.timeout;
    retries = s.retries;
    address_type = s.address_type;
    shared = s.shared;
  }
  put_value-IsShown (Request.set_types v) h s = record {
    community = s.community;
    count = s.count;
    arrays = put_array cfg "Type" (numbers v) refl s.arrays;
    ipv4 = s.ipv4;
    ipv6 = s.ipv6;
    user_name = s.user_name;
    types = bytes_kept n _ v h.0 h.1;
    timeout = s.timeout;
    retries = s.retries;
    address_type = s.address_type;
    shared = refl;
  }
  put_value-IsShown (Request.set_timeout v) h s = record {
    community = s.community;
    count = s.count;
    arrays = put_array cfg "Timeout" (numbers v) refl s.arrays;
    ipv4 = s.ipv4;
    ipv6 = s.ipv6;
    user_name = s.user_name;
    types = s.types;
    timeout = bytes_kept n _ v h.0 h.1;
    retries = s.retries;
    address_type = s.address_type;
    shared = s.shared;
  }
  put_value-IsShown (Request.set_retries v) h s = record {
    community = s.community;
    count = s.count;
    arrays = put_array cfg "Retries" (numbers v) refl s.arrays;
    ipv4 = s.ipv4;
    ipv6 = s.ipv6;
    user_name = s.user_name;
    types = s.types;
    timeout = s.timeout;
    retries = bytes_kept n _ v h.0 h.1;
    address_type = s.address_type;
    shared = s.shared;
  }
  put_value-IsShown (Request.set_address_type v) h s = record {
    community = s.community;
    count = s.count;
    arrays = s.arrays;
    ipv4 = s.ipv4;
    ipv6 = s.ipv6;
    user_name = s.user_name;
    types = s.types;
    timeout = s.timeout;
    retries = s.retries;
    address_type = bytes_kept n _ v h.0 h.1;
    shared = s.shared;
  }
