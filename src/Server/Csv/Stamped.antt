-- ===== src/Server/Csv/Stamped.antt =====
-- The rows of an upload as appends to the CSV storage, each at the time that AppendData reads.
use eterrain_tf_upload.Base.{refl, suc, ◌≡◌, none, arith, ℕ, List, [], ◌∷◌, Option-cases, inl, inr}
use eterrain_tf_upload.Text.{bytes_eq}
use eterrain_tf_upload.Uuid.{UuidLib}
use eterrain_tf_upload.Float.{Float}
use eterrain_tf_upload.Storage.Csv.{Row, RowLib, append_data}
use eterrain_tf_upload.Storage.Csv.History.{Append, append_all}
use eterrain_tf_upload.Handlers.Upload.{UploadLib}
use eterrain_tf_upload.Handlers.Upload.Process.{append_rows, AllTaken}
use eterrain_tf_upload.Server.Data.{DataState, data_storage}
use eterrain_tf_upload.Server.Csv.{csv_data_storage}

module _ (lib : UuidLib) (rl : RowLib) (times : ℕ → rl.Time) where
  open lib use {Uuid}

  -- The appends of an organization's rows, each at the time that the clock then shows
  unfoldable pub stamped : Uuid → ℕ → List Row → List (Append lib rl)
  stamped u calls [] = []
  stamped u calls (row ∷ rows) =
      (record { time = times calls; org_id = u; row = row }) ∷ stamped u (suc calls) rows

  module _ (f : Float) (ul : UploadLib) where
    abbrev pub State : Type 0
    State = DataState f ul lib (csv_data_storage lib rl times)

    -- The service after the rows of an upload: only the storage and the clock have changed.
    pub record IsStored (u : Uuid) (rows : List Row) (s s' : State) : Type 0 where
      pub taken : AllTaken ul lib (data_storage f ul lib (csv_data_storage lib rl times)) u rows s
      pub storage :
          s'.store.storage ≡ (append_all lib rl (stamped u s.store.calls rows) s.store.storage).0
      pub panicking : s'.store.panicking ≡ s.store.panicking
      pub credentials : s'.credentials ≡ s.credentials

    pub append_rows-stamped :
        (u : Uuid) (rows : List Row) (s : State)
        → (append_all lib rl (stamped u s.store.calls rows) s.store.storage).1 ≡ none
        → IsStored u rows s
            (append_rows ul lib (data_storage f ul lib (csv_data_storage lib rl times)) u rows s)
    unfolding append_all stamped append_rows AllTaken
    append_rows-stamped u [] s h = record {
      taken = tt;
      storage = refl;
      panicking = refl;
      credentials = refl;
    }
    append_rows-stamped u (row ∷ rows) s h =
        elim (Option-cases (append_data lib rl (times s.store.calls) u row s.store.storage).1) [
          | inr (e, x) ↦ ground arith
          | inl x ↦
              let s' =
                ((data_storage f ul lib (csv_data_storage lib rl times)).append_data u row s).0 in
              let rest = append_rows-stamped u rows s' (ground arith) in
              record {
                taken = (x, rest.taken);
                storage = ground (arith, rest.storage);
                panicking = rest.panicking;
                credentials = rest.credentials;
              }
        ]
