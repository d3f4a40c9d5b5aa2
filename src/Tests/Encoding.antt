-- ===== src/Tests/Encoding.antt =====
-- An encoding of lists of texts that never makes one text of two lists, in place of the digest.
use freight_auditor.Prelude.{String, List, [], ◌∷◌, ◌≡◌, refl, sym, ap, arith}
use Prim.Native.Char.{code}
use text.Mathlib.TextLemmas.{head-eq_of_cons-eq, tail-eq_of_cons-eq, cons≢nil}

-- Each character behind an `x`, and a `y` at the end.
unfoldable pub encoded : String → String → String
encoded String.[] rest = String.◌∷◌ "y" rest
encoded (String.◌∷◌ c s) rest = String.◌∷◌ "x" (String.◌∷◌ c (encoded s rest))

unfoldable pub encoding : List String → String
encoding [] = String.[]
encoding (s ∷ ss) = encoded s (encoding ss)

x-ne-y : (a b : String) → String.◌∷◌ "x" a ≡ String.◌∷◌ "y" b → ⊥
x-ne-y a b e = absurd (omega (arith, ap code (head-eq_of_cons-eq e)))

encoded_inj : (s t a b : String) → encoded s a ≡ encoded t b → (s ≡ t) × (a ≡ b)
unfolding encoded
encoded_inj String.[] String.[] a b e = (refl, tail-eq_of_cons-eq e)
encoded_inj String.[] (String.◌∷◌ c t) a b e = absurd (x-ne-y _ _ (sym e))
encoded_inj (String.◌∷◌ c s) String.[] a b e = absurd (x-ne-y _ _ e)
encoded_inj (String.◌∷◌ c s) (String.◌∷◌ d t) a b e =
    let tail = tail-eq_of_cons-eq e in
    let (same, rest) = encoded_inj s t a b (tail-eq_of_cons-eq tail) in
    ((λ i. String.◌∷◌ (head-eq_of_cons-eq tail i) (same i)), rest)

encoded-ne-nil : (s a : String) → encoded s a ≡ String.[] → ⊥
unfolding encoded
encoded-ne-nil String.[] a e = cons≢nil e
encoded-ne-nil (String.◌∷◌ c s) a e = cons≢nil e

pub encoding_inj : (xs ys : List String) → encoding xs ≡ encoding ys → xs ≡ ys
unfolding encoding
encoding_inj [] [] e = refl
encoding_inj [] (y ∷ ys) e = absurd (encoded-ne-nil y (encoding ys) (sym e))
encoding_inj (x ∷ xs) [] e = absurd (encoded-ne-nil x (encoding xs) e)
encoding_inj (x ∷ xs) (y ∷ ys) e =
    let (same, rest) = encoded_inj x y (encoding xs) (encoding ys) e in
    λ i. same i ∷ encoding_inj xs ys rest i
