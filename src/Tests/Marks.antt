-- ===== src/Tests/Marks.antt =====
-- A code of byte lists as texts, which stands in for Base64: each byte as its marks and a comma.
use Prim.Native.Nat.{ℕ, zero, suc, ◌+◌}
use Prim.Native.Char.{code}
use Prim.Native.String.{String, [], ◌∷◌}
use mathlib.Core.List.{List}
use platform_event_filter.Common.{◌≡◌, refl, ap, ◌∙◌, arith, ◌==◌, true, false}

abbrev marks : ℕ → String → String
marks zero rest = "," ∷ rest
marks (suc n) rest = "1" ∷ marks n rest

abbrev pub encode_marks : List ℕ → String
encode_marks List.[] = []
encode_marks (List.◌∷◌ n ns) = marks n (encode_marks ns)

abbrev decode_from : ℕ → String → List ℕ
decode_from n [] = List.[]
decode_from n (c ∷ s) = elim (code c == b',') [
  | true ↦ List.◌∷◌ n (decode_from 0 s)
  | false ↦ decode_from (suc n) s
]

abbrev pub decode_marks : String → List ℕ
decode_marks s = decode_from 0 s

decode_from-marks :
    (n k : ℕ) (rest : String) → decode_from k (marks n rest) ≡ List.◌∷◌ (n + k) (decode_from 0 rest)
decode_from-marks zero k rest = ap (λ (m : ℕ). List.◌∷◌ m (decode_from 0 rest)) (omega arith)
decode_from-marks (suc n) k rest =
    decode_from-marks n (suc k) rest ∙ ap (λ (m : ℕ). List.◌∷◌ m (decode_from 0 rest)) (omega arith)

pub decode_marks-encode_marks : (ns : List ℕ) → decode_marks (encode_marks ns) ≡ ns
decode_marks-encode_marks List.[] = refl
decode_marks-encode_marks (List.◌∷◌ n ns) =
    decode_from-marks n 0 (encode_marks ns)
    ∙ ap (λ (m : ℕ). List.◌∷◌ m (decode_from 0 (encode_marks ns))) (omega arith)
    ∙ ap (List.◌∷◌ n) (decode_marks-encode_marks ns)
