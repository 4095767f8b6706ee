-- ===== src/SensorPath/Laws.antt =====
-- The parts of a sensor path.
use Prim.Native.Nat.{ℕ, zero, suc, ◌+◌, ◌-◌, ◌≤◌, ◌<◌}
use Prim.Native.Char.{Char, code}
use Prim.Native.String.{String, [], ◌∷◌, ◌++◌}
use mathlib.Core.Path.{◌≡◌, refl, ◌∙◌, ap}
use mathlib.Core.Logic.{◌≢◌}
use mathlib.Core.Option.{Option, none, some}
use native.Mathlib.Omega.{arith}
use text.Mathlib.TextLemmas.{nil-append, cons-append, append_assoc}
use platform_event_filter.SensorPath.{
  rfind, rfind_from, drop_chars, take_chars, substr, npos, sub_size, retrieve_sensor_type_from_path,
  get_sensor_name_from_path,
}

abbrev pub NoSlash : String → Type 0
NoSlash [] = Unit {0}
NoSlash (c ∷ s) = (code c ≢ b'/') × NoSlash s

abbrev pub chars : String → ℕ
chars [] = 0
chars (c ∷ s) = suc (chars s)

rfind_from-append :
    (s t : String) (i limit : ℕ) (best : Option ℕ)
    → rfind_from (s ++ t) i limit best
      ≡ rfind_from t (i + chars s) limit (rfind_from s i limit best)
unfolding rfind_from
rfind_from-append [] t i limit best =
    rw nil-append (ap (λ j. rfind_from t j limit best) (omega arith))
rfind_from-append (c ∷ s) t i limit best = rw cons-append (
    rfind_from-append s t (suc i) limit _
    ∙ ap (λ j. rfind_from t j limit (rfind_from (c ∷ s) i limit best)) (omega arith))

rfind_from-NoSlash :
    (s : String) (i limit : ℕ) (best : Option ℕ) → NoSlash s → rfind_from s i limit best ≡ best
unfolding rfind_from
rfind_from-NoSlash [] i limit best h = refl
rfind_from-NoSlash (c ∷ s) i limit best (p, h) =
    ground (arith, rfind_from-NoSlash s (suc i) limit best h)

rfind_from_past :
    (s : String) (i limit : ℕ) (best : Option ℕ) → limit < i → rfind_from s i limit best ≡ best
unfolding rfind_from
rfind_from_past [] i limit best h = refl
rfind_from_past (c ∷ s) i limit best h = ground (arith, rfind_from_past s (suc i) limit best)

drop_chars-append : (s t : String) → drop_chars (chars s) (s ++ t) ≡ t
unfolding drop_chars
drop_chars-append [] t = nil-append t
drop_chars-append (c ∷ s) t = rw cons-append (drop_chars-append s t)

take_chars-append : (s t : String) → take_chars (chars s) (s ++ t) ≡ s
unfolding take_chars
take_chars-append [] [] = refl
take_chars-append [] (c ∷ t) = rw nil-append
take_chars-append (c ∷ s) t = rw cons-append (ap (◌∷◌ c) (take_chars-append s t))

chars-append : (s t : String) → chars (s ++ t) ≡ chars s + chars t
chars-append [] t = rw nil-append (omega arith)
chars-append (c ∷ s) t = rw cons-append (omega (arith, chars-append s t))

abbrev pub slash : Char
slash = "/"

rfind_from-slash :
    (t : String) (i limit : ℕ) (best : Option ℕ)
    → i ≤ limit
    → rfind_from (slash ∷ t) i limit best ≡ rfind_from t (suc i) limit (some i)
unfolding rfind_from
rfind_from-slash t i limit best h = ground arith

-- The last slash of a text, and one that a limit hides the rest of.
rfind-last :
    (s t : String) (limit : ℕ)
    → NoSlash t
    → chars s ≤ limit
    → rfind (s ++ (slash ∷ t)) limit ≡ some (chars s)
unfolding rfind
rfind-last s t limit h l =
    rfind_from-append s (slash ∷ t) 0 limit none
    ∙ rfind_from-slash t (0 + chars s) limit _ (omega arith)
    ∙ rfind_from-NoSlash t _ limit (some (0 + chars s)) h
    ∙ ap some (omega arith)

rfind-limit :
    (s t : String) → 0 < chars s → rfind (s ++ (slash ∷ t)) (chars s - 1) ≡ rfind s (chars s - 1)
unfolding rfind
rfind-limit s t l =
    rfind_from-append s (slash ∷ t) 0 (chars s - 1) none
    ∙ rfind_from_past (slash ∷ t) (0 + chars s) (chars s - 1) _ (omega arith)

take_chars_all : (n : ℕ) (s : String) → chars s ≤ n → take_chars n s ≡ s
unfolding take_chars
take_chars_all n [] h = refl
take_chars_all zero (c ∷ s) h = absurd (omega arith)
take_chars_all (suc n) (c ∷ s) h = ap (◌∷◌ c) (take_chars_all n s (omega arith))

slash_text : (t : String) → (slash ∷ []) ++ t ≡ slash ∷ t
slash_text t = cons-append slash [] t ∙ ap (◌∷◌ slash) (nil-append t)

module _ (root type name : String) (short : chars root + chars type + chars name + 2 ≤ npos) where
  abbrev folder : String
  folder = root ++ (slash ∷ type)

  -- `<root>/<type>/<name>`
  abbrev pub sensor_path : String
  sensor_path = folder ++ (slash ∷ name)

  chars-folder : chars folder ≡ chars root + 1 + chars type
  chars-folder = omega (arith, chars-append root (slash ∷ type))

  path_split : sensor_path ≡ (root ++ (slash ∷ [])) ++ (type ++ (slash ∷ name))
  path_split = simp (append_assoc, cons-append, slash_text)

  folder_split : sensor_path ≡ (folder ++ (slash ∷ [])) ++ name
  folder_split = simp (append_assoc, cons-append, slash_text)

  type_part : substr sensor_path (chars root + 1) (sub_size (chars folder) (chars root + 1)) ≡ type
  unfolding substr
  type_part =
      let from : chars root + 1 ≡ chars (root ++ (slash ∷ [])) =
        omega (arith, chars-append root (slash ∷ [])) in
      let size : sub_size (chars folder) (chars root + 1) ≡ chars type =
        omega (arith, chars-folder) in
      rw (size, from, path_split, drop_chars-append) (take_chars-append type (slash ∷ name))

  -- The type of a path `<root>/<type>/<name>` that is shorter than `npos` is its last part but one, if
  -- neither the type nor the name has a slash.
  pub retrieve_sensor_type_from_path_lem :
      NoSlash type → NoSlash name → retrieve_sensor_type_from_path sensor_path ≡ type
  unfolding retrieve_sensor_type_from_path
  retrieve_sensor_type_from_path_lem ht hn =
      let before : sub_size (chars folder) 1 ≡ chars folder - 1 = omega (arith, chars-folder) in
      rw
        (
          rfind-last folder name npos hn (omega (arith, chars-folder)),
          before,
          rfind-limit folder name (omega (arith, chars-folder)),
          rfind-last root type (chars folder - 1) ht (omega (arith, chars-folder)),
        )
        type_part

  -- The name of such a path is its last part, if the name has no slash.
  pub get_sensor_name_from_path_lem : NoSlash name → get_sensor_name_from_path sensor_path ≡ name
  unfolding get_sensor_name_from_path
  get_sensor_name_from_path_lem hn =
      let from : chars folder + 1 ≡ chars (folder ++ (slash ∷ [])) =
        omega (arith, chars-append folder (slash ∷ [])) in
      rw
        (
          rfind-last folder name npos hn (omega (arith, chars-folder)),
          from,
          folder_split,
          drop_chars-append,
        )
        (take_chars_all npos name (omega arith))
