-- ===== src/Storage/Csv/History/Joined.antt =====
-- Appends after appends.
use eterrain_tf_upload.Base.{
  ◌+◌, ◌≡◌, refl, none, inl, inr, Option-cases, List, [], ◌∷◌, ◌++◌, arith, All,
}
use eterrain_tf_upload.Uuid.{UuidLib}
use eterrain_tf_upload.Storage.Csv.{RowLib, CsvStorage, append_data}
use eterrain_tf_upload.Storage.Csv.History.{Append, append_all, cost}

pub All-append {ℓ κ} :
    {A : Type ℓ} (P : A → Type κ) (xs ys : List A) → All P xs → All P ys → All P (xs ++ ys)
All-append P [] ys p q = q
All-append P (x ∷ xs) ys p q = (p.0, All-append P xs ys p.1 q)

module _ (lib : UuidLib) (rl : RowLib) where
  pub cost-append :
      (cs ds : List (Append lib rl)) → cost lib rl (cs ++ ds) ≡ cost lib rl cs + cost lib rl ds
  unfolding cost
  cost-append [] ds = omega arith
  cost-append (c ∷ cs) ds = omega (arith, cost-append cs ds)

  -- If no append fails, the first ones do not, and the others follow on them.
  pub append_all-append :
      (cs ds : List (Append lib rl)) (s : CsvStorage)
      → (append_all lib rl (cs ++ ds) s).1 ≡ none
      → ((append_all lib rl ds (append_all lib rl cs s).0).1 ≡ none)
        × ((append_all lib rl (cs ++ ds) s).0 ≡ (append_all lib rl ds (append_all lib rl cs s).0).0)
  unfolding append_all
  append_all-append [] ds s h = (h, refl)
  append_all-append (c ∷ cs) ds s h =
      elim (Option-cases (append_data lib rl c.time c.org_id c.row s).1) [
        | inr (e, x) ↦ ground arith
        | inl x ↦
            ground (arith, append_all-append cs ds (append_data lib rl c.time c.org_id c.row s).0)
      ]
