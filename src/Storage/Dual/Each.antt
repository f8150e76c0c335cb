-- ===== src/Storage/Dual/Each.antt =====
-- What each of the two storages sees.
use eterrain_tf_upload.Base.{◌≡◌, ◌↔◌, ◌⊎◌, refl, none, List, arith, inl, inr}
use eterrain_tf_upload.Errors.{ok, err, Error, Result-cases}
use eterrain_tf_upload.Storage.{DataStorage}
use eterrain_tf_upload.Storage.Dual.{DualStorage, append_data, get_org_data}

module _ {Uuid Row Upload S T : Type 0} (csv : DataStorage Uuid Row Upload S)
    (mysql : DataStorage Uuid Row Upload T) (u : Uuid) (s : DualStorage S T) where
  -- AppendData hands the row to both storages, whatever the first one answers, and returns no error
  -- exactly when neither does.
  pub append_data-each :
      (row : Row)
      → ((append_data csv mysql u row s).0.csv ≡ (csv.append_data u row s.csv).0)
        × ((append_data csv mysql u row s).0.mysql ≡ (mysql.append_data u row s.mysql).0)
        × (((append_data csv mysql u row s).1 ≡ none) ↔ (
            ((csv.append_data u row s.csv).1 ≡ none)
            × ((mysql.append_data u row s.mysql).1 ≡ none)))
  unfolding append_data
  append_data-each row = (refl, refl, (λ h. ground arith, λ h. ground arith))

  -- GetOrgData gives what the CSV storage gives and does not ask the MySQL storage, or else the CSV
  -- storage failed and it gives what the MySQL storage gives.
  pub get_org_data_cases :
      ((uploads : List Upload) × ((csv.get_org_data u s.csv).1 ≡ ok uploads)
        × ((get_org_data csv mysql u s).1 ≡ ok uploads)
        × ((get_org_data csv mysql u s).0.mysql ≡ s.mysql))
      ⊎ ((e : Error) × ((csv.get_org_data u s.csv).1 ≡ err e)
          × ((get_org_data csv mysql u s).1 ≡ (mysql.get_org_data u s.mysql).1)
          × ((get_org_data csv mysql u s).0.mysql ≡ (mysql.get_org_data u s.mysql).0))
  unfolding get_org_data
  get_org_data_cases = elim (Result-cases (csv.get_org_data u s.csv).1) [
    | inl (uploads, e) ↦ inl (uploads, e, ground arith, ground arith)
    | inr (x, e) ↦ inr (x, e, ground arith, ground arith)
  ]
