-- ===== src/Handlers/Upload/Process.antt =====
-- The loop over the instances of an upload: the rows it appends and when it stops.
use eterrain_tf_upload.Base.{
  ap, refl, suc, inl, inr, Option-cases, arith, ℕ, ◌+◌, ◌≤◌, ◌≡◌, ◌≢◌, Option, none, some, List, [],
  ◌∷◌, length, take,
}
use eterrain_tf_upload.Text.{Bytes}
use eterrain_tf_upload.Maps.{Map}
use eterrain_tf_upload.Uuid.{UuidLib}
use eterrain_tf_upload.Http.{Response}
use eterrain_tf_upload.Storage.{DataStorage}
use eterrain_tf_upload.Handlers.Value.{Value}
use eterrain_tf_upload.Handlers.Resource.{ResourceUpload, InstanceUpload, row_of}
use eterrain_tf_upload.Handlers.Upload.{
  process_instances, check_attributes, UploadLib, UploadJson, check_instance,
}

-- The rows of the instances, in order.
unfoldable pub rows_of : ResourceUpload → ℕ → List InstanceUpload → List (Map Bytes Value)
rows_of u idx [] = []
rows_of u idx (i ∷ is) = row_of u idx i ∷ rows_of u (idx + 1) is

pub take-rows_of :
    (u : ResourceUpload) (idx : ℕ) (is : List InstanceUpload)
    → take (length is) (rows_of u idx is) ≡ rows_of u idx is
unfolding rows_of
take-rows_of u idx [] = refl
take-rows_of u idx (i ∷ is) = ap (◌∷◌ (row_of u idx i)) (take-rows_of u (idx + 1) is)

module _ (ul : UploadLib) (lib : UuidLib) {Upload S : Type 0}
    (storage : DataStorage lib.Uuid (Map Bytes Value) Upload S) where
  open lib use {Uuid}

  -- Rows appended one after another.
  unfoldable pub append_rows : Uuid → List (Map Bytes Value) → S → S
  append_rows org_id [] s = s
  append_rows org_id (row ∷ rows) s = append_rows org_id rows (storage.append_data org_id row s).0

  -- Every instance passes its checks.
  unfoldable pub AllChecked : ℕ → List InstanceUpload → Type 0
  AllChecked idx [] = Unit
  AllChecked idx (i ∷ is) = (check_instance ul lib storage idx i ≡ none) × AllChecked (idx + 1) is

  -- AppendData was called for the first `stored` instances, and for all of them, each checked, if there is no
  -- response yet.
  pub record Processed (org_id : Uuid) (u : ResourceUpload) (idx : ℕ) (is : List InstanceUpload)
      (s : S) (end : S × Option (Response (UploadJson Upload))) : Type 0 where
    pub stored : ℕ
    pub stored_le : stored ≤ length is
    pub state : end.0 ≡ append_rows org_id (take stored (rows_of u idx is)) s
    pub complete : end.1 ≡ none → (stored ≡ length is) × AllChecked idx is
    pub failure : (x : Response (UploadJson Upload)) → end.1 ≡ some x → x.status ≢ 200

  status-check_attributes :
      (idx : ℕ) (kvs : Map Bytes Value) (x : Response (UploadJson Upload))
      → check_attributes ul lib storage idx kvs ≡ some x
      → x.status ≢ 200
  unfolding check_attributes
  status-check_attributes idx [] x h = cc
  status-check_attributes idx ((k, v) ∷ kvs) x h =
      λ e. ground (arith, status-check_attributes idx kvs x, e)

  status-check_instance :
      (idx : ℕ) (i : InstanceUpload) (x : Response (UploadJson Upload))
      → check_instance ul lib storage idx i ≡ some x
      → x.status ≢ 200
  unfolding check_instance
  status-check_instance idx i x h =
      λ e. ground (arith, status-check_attributes idx i.attributes x, e)

  pub process-Processed :
      (org_id : Uuid) (u : ResourceUpload) (idx : ℕ) (is : List InstanceUpload) (s : S)
      → Processed org_id u idx is s (process_instances ul lib storage org_id u idx is s)
  unfolding process_instances append_rows rows_of AllChecked
  process-Processed org_id u idx [] s = record {
    stored = 0;
    stored_le = omega arith;
    state = refl;
    complete = λ h. (refl, tt);
    failure = λ x h. cc;
  }
  process-Processed org_id u idx (i ∷ is) s =
      elim (Option-cases (check_instance ul lib storage idx i)) [
        | inr (x, c) ↦ record {
          stored = 0;
          stored_le = omega arith;
          state = ground arith;
          complete = λ h. ground arith;
          failure = λ y h. λ e. ground (arith, status-check_instance idx i x c);
        }
        | inl c ↦ elim (Option-cases (storage.append_data org_id (row_of u idx i) s).1) [
          | inr (e, a) ↦ record {
            stored = 1;
            stored_le = omega arith;
            state = ground arith;
            complete = λ h. ground arith;
            failure = λ y h. λ p. ground arith;
          }
          | inl a ↦
              let s' = (storage.append_data org_id (row_of u idx i) s).0 in
              let later = process-Processed org_id u (idx + 1) is s' in
              record {
                stored = suc later.stored;
                stored_le = omega (arith, later.stored_le);
                state = ground (arith, later.state);
                complete = λ h. ground (arith, later.complete);
                failure = λ x h. later.failure x (ground arith);
              }
        ]
      ]

  -- AppendData takes each of the rows, one after another.
  unfoldable pub AllTaken : Uuid → List (Map Bytes Value) → S → Type 0
  AllTaken org_id [] s = Unit
  AllTaken org_id (row ∷ rows) s =
      ((storage.append_data org_id row s).1 ≡ none)
      × AllTaken org_id rows (storage.append_data org_id row s).0

  pub process_taken :
      (org_id : Uuid) (u : ResourceUpload) (idx : ℕ) (is : List InstanceUpload) (s : S)
      → AllChecked idx is
      → AllTaken org_id (rows_of u idx is) s
      → (process_instances ul lib storage org_id u idx is s).1 ≡ none
  unfolding process_instances AllChecked AllTaken rows_of
  process_taken org_id u idx [] s c a = refl
  process_taken org_id u idx (i ∷ is) s c a =
      let s' = (storage.append_data org_id (row_of u idx i) s).0 in
      ground (arith, c.0, a.0, process_taken org_id u (idx + 1) is s' c.1 a.1)

  pub taken_by_all :
      (org_id : Uuid) (rows : List (Map Bytes Value)) (s : S)
      → ((row : Map Bytes Value) (t : S) → (storage.append_data org_id row t).1 ≡ none)
      → AllTaken org_id rows s
  unfolding AllTaken
  taken_by_all org_id [] s a = tt
  taken_by_all org_id (row ∷ rows) s a =
      (a row s, taken_by_all org_id rows (storage.append_data org_id row s).0 a)
