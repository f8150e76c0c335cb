-- ===== src/Handlers/Upload/Outcome.antt =====
-- What an upload leaves in the storage, for each of its outcomes.
use eterrain_tf_upload.Base.{
  ◌⊎◌, ◌∙◌, inl, inr, Option-cases, arith, ℕ, ◌≤◌, ◌≡◌, ◌≢◌, none, some, length, take,
}
use eterrain_tf_upload.Text.{Bytes}
use eterrain_tf_upload.Maps.{Map}
use eterrain_tf_upload.Uuid.{UuidLib}
use eterrain_tf_upload.Http.{Response}
use eterrain_tf_upload.Storage.{DataStorage}
use eterrain_tf_upload.Handlers.Value.{Value}
use eterrain_tf_upload.Validation.{
  word_byte, validate_provider, validate_category, validate_resource_type,
}
use eterrain_tf_upload.Validation.Names.{IsName, validate_fields_iff}
use eterrain_tf_upload.Handlers.Upload.Limits.{limits_accept_all}
use eterrain_tf_upload.Handlers.Upload.Process.{
  rows_of, take-rows_of, append_rows, AllChecked, process-Processed, process_taken, taken_by_all,
  AllTaken,
}
use eterrain_tf_upload.Handlers.Resource.{ResourceUpload}
use eterrain_tf_upload.Handlers.Upload.{
  store_upload, check_upload, process_instances, UploadLib, UploadJson,
}

module _ (ul : UploadLib) (lib : UuidLib) {Upload S : Type 0}
    (storage : DataStorage lib.Uuid (Map Bytes Value) Upload S) where
  open lib use {Uuid}

  -- The fields of an upload that the handler stores.
  pub record IsAcceptable (u : ResourceUpload) : Type 0 where
    pub provider : IsName word_byte 100 u.provider
    pub category : IsName word_byte 100 u.category
    pub resource_type : IsName word_byte 200 u.resource_type
    pub some_instance : 1 ≤ length u.instances
    pub few_instances : length u.instances ≤ 100

  check_upload-fields :
      (u : ResourceUpload)
      → check_upload ul lib storage u ≡ none
      → (validate_provider u.provider ≡ none)
        × (validate_category u.category ≡ none)
        × (validate_resource_type u.resource_type ≡ none)
        × (1 ≤ length u.instances)
        × (length u.instances ≤ 100)
  unfolding check_upload
  check_upload-fields u h = ground arith

  status-check_upload :
      (u : ResourceUpload) (x : Response (UploadJson Upload))
      → check_upload ul lib storage u ≡ some x
      → x.status ≢ 200
  unfolding check_upload
  status-check_upload u x h = λ e. ground arith

  check_upload-IsAcceptable :
      (u : ResourceUpload) → check_upload ul lib storage u ≡ none → IsAcceptable u
  check_upload-IsAcceptable u h =
      let f = check_upload-fields u h in
      record {
        provider = (validate_fields_iff u.provider).0.0 f.0;
        category = (validate_fields_iff u.category).1.0 f.1;
        resource_type = (validate_fields_iff u.resource_type).2.0 f.2;
        some_instance = f.3;
        few_instances = f.4;
      }

  pub check_upload-accepts :
      (u : ResourceUpload) → IsAcceptable u → check_upload ul lib storage u ≡ none
  unfolding check_upload
  check_upload-accepts u a = ground (
    arith,
    limits_accept_all u 10 1000 (omega arith),
    (validate_fields_iff u.provider).0.1 a.provider,
    (validate_fields_iff u.category).1.1 a.category,
    (validate_fields_iff u.resource_type).2.1 a.resource_type,
    a.some_instance,
    a.few_instances,
  )

  -- How an upload ends: AppendData was called for the first `stored` rows, in order; with status 200 all of them
  -- were, the fields are acceptable and each instance passed its checks.
  pub record Ends (org_id : Uuid) (u : ResourceUpload) (s : S)
      (end : S × Response (UploadJson Upload)) : Type 0 where
    pub stored : ℕ
    pub stored_le : stored ≤ length u.instances
    pub state : end.0 ≡ append_rows ul lib storage org_id (take stored (rows_of u 0 u.instances)) s
    pub success :
        (end.1.status ≢ 200)
        ⊎ ((stored ≡ length u.instances) × IsAcceptable u × AllChecked ul lib storage 0 u.instances)

  pub store_upload-Ends :
      (org_id : Uuid) (u : ResourceUpload) (s : S)
      → Ends org_id u s (store_upload ul lib storage org_id u s)
  unfolding store_upload append_rows
  store_upload-Ends org_id u s = elim (Option-cases (check_upload ul lib storage u)) [
    | inr (x, c) ↦ record {
      stored = 0;
      stored_le = omega arith;
      state = ground arith;
      success = inl (λ h. status-check_upload u x c (ground arith));
    }
    | inl c ↦
        let p = process-Processed ul lib storage org_id u 0 u.instances s in
        elim (Option-cases (process_instances ul lib storage org_id u 0 u.instances s).1) [
          | inr (x, f) ↦ record {
            stored = p.stored;
            stored_le = p.stored_le;
            state = ground (arith, p.state);
            success = inl (λ h. p.failure x f (ground arith));
          }
          | inl f ↦ record {
            stored = p.stored;
            stored_le = p.stored_le;
            state = ground (arith, p.state);
            success = inr ((p.complete f).0, check_upload-IsAcceptable u c, (p.complete f).1);
          }
        ]
  ]

  status-store_upload :
      (org_id : Uuid) (u : ResourceUpload) (s : S)
      → IsAcceptable u
      → AllChecked ul lib storage 0 u.instances
      → AllTaken ul lib storage org_id (rows_of u 0 u.instances) s
      → (store_upload ul lib storage org_id u s).1.status ≡ 200
  unfolding store_upload
  status-store_upload org_id u s fields checked takes = ground (
    arith,
    check_upload-accepts u fields,
    process_taken ul lib storage org_id u 0 u.instances s checked takes,
  )

  -- An upload with acceptable fields whose instances pass their checks is answered 200, and its rows
  -- are all stored in order, if the storage takes each of these rows after those before it.
  pub store_upload-taken :
      (org_id : Uuid) (u : ResourceUpload) (s : S)
      → IsAcceptable u
      → AllChecked ul lib storage 0 u.instances
      → AllTaken ul lib storage org_id (rows_of u 0 u.instances) s
      → ((store_upload ul lib storage org_id u s).1.status ≡ 200)
        × ((store_upload ul lib storage org_id u s).0
            ≡ append_rows ul lib storage org_id (rows_of u 0 u.instances) s)
  store_upload-taken org_id u s fields checked takes =
      let answered = status-store_upload org_id u s fields checked takes in
      let ends = store_upload-Ends org_id u s in
      let all : ends.stored ≡ length u.instances = elim ends.success [
        | inl refused ↦ absurd (refused answered)
        | inr h ↦ h.0
      ] in
      (answered, ends.state ∙ rw all (rw (take-rows_of u 0 u.instances)))

  -- An upload with acceptable fields whose instances pass their checks is answered 200, and its rows
  -- are all stored in order, if the storage takes every row.
  pub store_upload-succeeds :
      (org_id : Uuid) (u : ResourceUpload) (s : S)
      → IsAcceptable u
      → AllChecked ul lib storage 0 u.instances
      → ((row : Map Bytes Value) (t : S) → (storage.append_data org_id row t).1 ≡ none)
      → ((store_upload ul lib storage org_id u s).1.status ≡ 200)
        × ((store_upload ul lib storage org_id u s).0
            ≡ append_rows ul lib storage org_id (rows_of u 0 u.instances) s)
  store_upload-succeeds org_id u s fields checked takes =
      store_upload-taken org_id u s fields checked
        (taken_by_all ul lib storage org_id (rows_of u 0 u.instances) s takes)
