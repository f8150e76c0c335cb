-- ===== src/Tests/Deploying.antt =====
-- A service that starts with the file that the key generator wrote.
use eterrain_tf_upload.Base.{◌≡◌, refl, true, some, none, [], ◌∷◌, arith}
use eterrain_tf_upload.Text.{Bytes, codes, equal}
use eterrain_tf_upload.Errors.{ok}
use eterrain_tf_upload.Uuid.{two_uuids}
use eterrain_tf_upload.Float.{whole}
use eterrain_tf_upload.Http.{value, raw, json_headers}
use eterrain_tf_upload.Keygen.Main.{keygen}
use eterrain_tf_upload.Server.{serve, post_route, get_route}
use eterrain_tf_upload.Server.States.{Carries}
use eterrain_tf_upload.Server.Deployed.{Brings, deployed, serve-keygen}
use eterrain_tf_upload.Tests.Access.{request}
use eterrain_tf_upload.Tests.Keys.{
  hash, compare_hash, hash-laws, input, listed_orgs, all_room, input-orgs, input-keys,
}
use eterrain_tf_upload.Tests.Service.{post, prod_is_valid}
use eterrain_tf_upload.Tests.Storage.{json}

request-Brings : Brings whole two_uuids json hash compare_hash request true (codes "first")
unfolding equal value
request-Brings = record {
  has_org_id = λ e. cc e;
  names_org = refl;
  has_api_key = λ e. cc e;
  api_key = refl;
  no_value = refl;
}

post-Brings : Brings whole two_uuids json hash compare_hash post true (codes "first")
unfolding equal value
post-Brings = record {
  has_org_id = λ e. cc e;
  names_org = refl;
  has_api_key = λ e. cc e;
  api_key = refl;
  no_value = refl;
}

new_state-Carries : Carries whole two_uuids json compare_hash post (codes "{1}")
new_state-Carries = record { content = refl; failure = refl; in_limit = omega arith; valid = refl }

serve-keygen_example :
    (output : Bytes) × (_ : keygen two_uuids hash (ok input) none all_room ≡ (some output, none))
    × ((serve whole two_uuids json compare_hash post_route post
          (deployed whole two_uuids json hash compare_hash output 7)).1.status
        ≡ 200)
    × ((serve whole two_uuids json compare_hash get_route request
          (serve whole two_uuids json compare_hash post_route post
            (deployed whole two_uuids json hash compare_hash output 7)).0).1
        ≡ record { status = 200; headers = json_headers; body = raw (codes "{1}") })
serve-keygen_example =
    serve-keygen whole two_uuids json hash compare_hash hash-laws input all_room listed_orgs true []
      (codes "first") (codes "second" ∷ []) 7 post request (codes "{1}") input-orgs
      ((omega arith, (omega arith, tt)), tt) (omega arith) input-keys post-Brings request-Brings
      prod_is_valid refl new_state-Carries
