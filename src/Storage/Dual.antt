-- ===== src/Storage/Dual.antt =====
-- internal/storage/dual.go, over any two data storages in place of the CSV and the MySQL one. The log
-- lines are not modelled.
pub mod Each
pub mod Upload
use eterrain_tf_upload.Base.{Option, none, some, List}
use eterrain_tf_upload.Errors.{Error, wrapf, both, Result, ok, err}
use eterrain_tf_upload.Storage.{DataStorage}

pub record DualStorage (S T : Type 0) : Type 0 where
  pub csv : S
  pub mysql : T

unfoldable pub new_dual_storage : {S T : Type 0} → S → T → DualStorage S T
new_dual_storage csv mysql = record { csv = csv; mysql = mysql }

-- Close, with that of the MySQL storage; a CSV storage has none.
unfoldable pub close_dual : {S T : Type 0} → (T → Option Error) → DualStorage S T → Option Error
close_dual close_mysql s = close_mysql s.mysql

module _ {Uuid Row Upload S T : Type 0} (csv : DataStorage Uuid Row Upload S)
    (mysql : DataStorage Uuid Row Upload T) where
  -- The error of AppendData, from those of the two storages
  unfoldable pub append_error : Option Error → Option Error → Option Error
  append_error (some csv_err) (some mysql_err) =
      some
        (both "both CSV and MySQL storage failed: CSV error: %v, MySQL error: %v" csv_err mysql_err)
  append_error (some csv_err) none =
      some (wrapf "CSV storage failed (data saved to MySQL): " csv_err)
  append_error none (some mysql_err) =
      some (wrapf "MySQL storage failed (data saved to CSV): " mysql_err)
  append_error none none = none

  unfoldable pub append_data : Uuid → Row → DualStorage S T → DualStorage S T × Option Error
  unfolding append_error
  append_data org_id row s =
      let (csv', csv_err) = csv.append_data org_id row s.csv in
      let (mysql', mysql_err) = mysql.append_data org_id row s.mysql in
      (record { csv = csv'; mysql = mysql' }, append_error csv_err mysql_err)

  unfoldable pub get_org_data : Uuid → DualStorage S T → DualStorage S T × Result (List Upload)
  get_org_data org_id s =
      let (csv', result) = csv.get_org_data org_id s.csv in
      elim result [
        | ok uploads ↦ (record s { csv = csv' }, ok uploads)
        | err e ↦
            let (mysql', fallback) = mysql.get_org_data org_id s.mysql in
            (record { csv = csv'; mysql = mysql' }, fallback)
      ]

  -- *DualStorage as a DataStorage
  abbrev pub dual_storage : DataStorage Uuid Row Upload (DualStorage S T)
  dual_storage = record { append_data = append_data; get_org_data = get_org_data }
