-- ===== src/Workflow/Keys.antt =====
-- The texts that make the ids of jobs and events: numbers print differently, and so do keys of uuids.
use freight_auditor.Prelude.{
  ℕ, suc, ◌*◌, String, some, nat_eq, ◌≡◌, sym, ap, ◌∙◌, inl, inr, arith, Bool-cases,
}
use freight_auditor.Cents.Text.{read_digits, read_digits-print_digits}
use freight_auditor.Workflow.Queue.{count_text, key_text}
use Prim.Native.String.{count}
use text.Mathlib.TextLemmas.{append_inj, append_cancel_left}

read-count_text : (n : ℕ) → read_digits 0 (count_text n) ≡ some (n * 10000)
unfolding count_text read_digits
read-count_text n = elim (Bool-cases (nat_eq n 0)) [
  | inl e ↦ rw e (ap some (ground arith))
  | inr e ↦ rw e (read_digits-print_digits (suc n) n "" (omega arith))
]

some_inj : (m n : ℕ) → some m ≡ some n → m ≡ n
some_inj m n e = cc

pub count_text_inj : (m n : ℕ) → count_text m ≡ count_text n → m ≡ n
count_text_inj m n e =
    let read : some (m * 10000) ≡ some (n * 10000) =
      sym (read-count_text m) ∙ ap (read_digits 0) e ∙ read-count_text n in
    omega (arith, some_inj (m * 10000) (n * 10000) read)

-- A uuid is 36 characters long, whatever its digits.
pub key_text_inj :
    (prefix : String) (i j : String) (m n : ℕ)
    → count i ≡ 36
    → count j ≡ 36
    → key_text prefix i m ≡ key_text prefix j n
    → (i ≡ j) × (m ≡ n)
key_text_inj prefix i j m n hi hj e =
    let (same, rest) = append_inj (append_cancel_left prefix _ _ e) (hi ∙ sym hj) in
    (same, count_text_inj m n (append_cancel_left ":" _ _ rest))
