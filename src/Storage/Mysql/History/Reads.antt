-- ===== src/Storage/Mysql/History/Reads.antt =====
-- What GetOrgData returns after appends, over a database that works.
use mathlib.Core.List.{Perm, Permᴰ}
use mathlib.Core.List.Perm
use mathlib.Core.Logic.{∥∥₁_elim}
use eterrain_tf_upload.Base.{
  ◌≤◌, length, ◌≡◌, ◌∙◌, ap, refl, subst, none, some, Option, List, [], ◌∷◌, arith, All,
  if◌then◌else◌,
}
use eterrain_tf_upload.Text.{Bytes}
use eterrain_tf_upload.Errors.{Error, ok}
use eterrain_tf_upload.Uuid.{UuidLib}
use eterrain_tf_upload.Storage.Csv.{RowLib, DataUpload, report_name_of}
use eterrain_tf_upload.Storage.Csv.History.{Append}
use eterrain_tf_upload.Storage.Mysql.{
  Scan, Database, MysqlStorage, get_org_data, parse_scan, kept, parse_scans,
}
use eterrain_tf_upload.Storage.Mysql.Tables.{table_of}
use eterrain_tf_upload.Storage.Mysql.Working.{Stored, scanned, IsTableName, max_rows, DatabaseLaws}
use eterrain_tf_upload.Storage.Mysql.History.{
  Stores, table_of-IsTableName, append_all, json_of, rows_for, table_with, append_all-Holds,
}

module _ (lib : UuidLib) (rl : RowLib) {D : Type 0} (database : Database rl.Time D)
    (db_name : Bytes) (laws : DatabaseLaws rl database db_name) where
  open lib use {Uuid, uuid_eq, to_string, parse-to_string}
  open rl use {Time, marshal}

  kept-Perm :
      (o : Option (DataUpload Time Uuid)) {us vs : List (DataUpload Time Uuid)}
      → Perm us vs
      → Perm (kept o us) (kept o vs)
  kept-Perm none p = p
  kept-Perm (some u) p = Perm.cons u p

  kept-swap :
      (o p : Option (DataUpload Time Uuid)) (us : List (DataUpload Time Uuid))
      → Perm (kept o (kept p us)) (kept p (kept o us))
  kept-swap none p us = Perm.refl (kept p us)
  kept-swap (some u) none us = Perm.refl (u ∷ us)
  kept-swap (some u) (some v) us = Perm.swap v u us

  parse_scans-Permᴰ :
      {xs ys : List (Scan Time)}
      → Permᴰ xs ys
      → Perm (parse_scans lib rl database xs) (parse_scans lib rl database ys)
  unfolding parse_scans
  parse_scans-Permᴰ Permᴰ.nil = Perm.nil
  parse_scans-Permᴰ (Permᴰ.cons {a} {b} {l₁} {l₂} e d) =
      subst
        (λ z.
          Perm (kept (parse_scan lib rl database a) (parse_scans lib rl database l₁))
            (kept (parse_scan lib rl database z) (parse_scans lib rl database l₂)))
        e (kept-Perm (parse_scan lib rl database a) (parse_scans-Permᴰ d))
  parse_scans-Permᴰ (Permᴰ.swap {a} {b} {a'} {b'} {l} e f) =
      let read = parse_scan lib rl database in
      let rest = parse_scans lib rl database l in
      subst (λ z. Perm (kept (read a) (kept (read b) rest)) (kept (read a') (kept (read z) rest))) e
        (subst (λ z. Perm (kept (read a) (kept (read b) rest)) (kept (read z) (kept (read a) rest)))
          f (kept-swap (read a) (read b) rest))
  parse_scans-Permᴰ (Permᴰ.trans d e) = Perm.trans (parse_scans-Permᴰ d) (parse_scans-Permᴰ e)

  parse_scans-Perm :
      {xs ys : List (Scan Time)}
      → Perm xs ys
      → Perm (parse_scans lib rl database xs) (parse_scans lib rl database ys)
  parse_scans-Perm p = ∥∥₁_elim p (hlevel) (λ d. parse_scans-Permᴰ d)

  -- An upload as it is read back
  unfoldable pub upload_of : Append lib rl → DataUpload Time Uuid
  upload_of c = record {
    timestamp = laws.microseconds c.time;
    org_id = c.org_id;
    report_name = report_name_of (laws.decoded c.row);
    content = laws.decoded c.row;
  }

  unfoldable pub uploads_for : Uuid → List (Append lib rl) → List (DataUpload Time Uuid)
  uploads_for u [] = []
  uploads_for u (c ∷ cs) =
      let rest = uploads_for u cs in if uuid_eq.beq c.org_id u then upload_of c ∷ rest else rest

  parse_scans-rows_for :
      (u : Uuid) (cs : List (Append lib rl))
      → All (Stores lib rl database db_name laws) cs
      → parse_scans lib rl database (scanned (rows_for lib rl database db_name laws u cs))
        ≡ uploads_for u cs
  unfolding parse_scans scanned rows_for uploads_for upload_of json_of
  parse_scans-rows_for u [] m = refl
  parse_scans-rows_for u (c ∷ cs) ((json, m, is, ranges), ms) = ground (
    arith,
    m,
    laws.unmarshal-stored c.row json m is,
    parse-to_string c.org_id,
    parse_scans-rows_for u cs ms,
  )

  named : (u : Uuid) → IsTableName (table_of lib rl database u)
  named u = table_of-IsTableName lib rl database db_name laws u

  get_org_data-Holds :
      (s : MysqlStorage D) (u : Uuid) (rows : List (Stored Time))
      → s.db_name ≡ db_name
      → laws.table (table_of lib rl database u) s.db ≡ table_with lib rl database db_name laws rows
      → (us : List (DataUpload Time Uuid)) × (_ : get_org_data lib rl database u s ≡ ok us) × Perm
          us
          (parse_scans lib rl database (scanned rows))
  unfolding get_org_data table_with scanned parse_scans
  get_org_data-Holds s u [] n h = (
    [],
    ground (arith, n, h, laws.count-table (table_of lib rl database u) s.db (named u)),
    Perm.refl [],
  )
  get_org_data-Holds s u (row ∷ rows) n h =
      let t = table_of lib rl database u in
      let (scans, selects, same) = laws.select-table t s.db (row ∷ rows) (named u) h in
      (
        parse_scans lib rl database scans,
        ground (arith, n, h, laws.count-table t s.db (named u), selects),
        parse_scans-Perm same,
      )

  -- On a database that works and has no tables yet: AppendData succeeds for each of a list of at most 2^31 - 1
  -- uploads that can be encoded and whose time and JSON the columns take, and then GetOrgData returns,
  -- for every organization, exactly its own uploads up to their order, each with its time to the
  -- microsecond and its data as MySQL gives it back.
  pub Perm-get_org_data-append_all :
      (cs : List (Append lib rl)) (s : MysqlStorage D)
      → s.db_name ≡ db_name
      → ((u : Uuid) → laws.table (table_of lib rl database u) s.db ≡ none)
      → All (Stores lib rl database db_name laws) cs
      → length cs ≤ max_rows
      → ((append_all lib rl database db_name laws cs s).1 ≡ none)
        × ((u : Uuid)
            → (us : List (DataUpload Time Uuid)) × (_ : get_org_data lib rl database u
                  (append_all lib rl database db_name laws cs s).0
                ≡ ok us)
              × Perm us (uploads_for u cs))
  unfolding table_with
  Perm-get_org_data-append_all cs s n empty m few =
      let (d, done, holds) =
        append_all-Holds lib rl database db_name laws cs s (λ u. []) empty (λ u. omega (arith, few))
          m in
      let s' : MysqlStorage D = record { db = d; db_name = s.db_name } in
      (
        ap (λ (r : MysqlStorage D × Option Error). r.1) done,
        λ u.
            let (us, reads, same) =
              get_org_data-Holds s' u (rows_for lib rl database db_name laws u cs) n (holds u) in
            (
              us,
              ap (λ (r : MysqlStorage D × Option Error). get_org_data lib rl database u r.0) done
                  ∙ reads,
              subst (Perm us) (parse_scans-rows_for u cs m) same,
            ),
      )
