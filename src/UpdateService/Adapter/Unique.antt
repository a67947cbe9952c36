-- ===== src/UpdateService/Adapter/Unique.antt =====
-- When `derive_adapter_id` tells two image references apart.
use Prim.Native.String.{◌∷◌}
use parking_fee_service.Prelude.{String, ◌<>◌, ◌≡◌, ◌∙◌, sym, ap, false, arith}
use parking_fee_service.Prelude.Text.{contains, rsplit_next, rsplit_next-append, contains-append}
use text.Mathlib.TextLemmas.{append_assoc, append_cancel_right, cons-append}
use parking_fee_service.UpdateService.Adapter.{derive_adapter_id}
use parking_fee_service.UpdateService.Adapter.Ids.{derive_adapter_id_tagged}

-- A name or a tag: a text without a slash and a colon.
pub record IsPlain (s : String) : Type 0 where
  pub no_slash : contains "/" s ≡ false
  pub no_colon : contains ":" s ≡ false

-- `format!("{path}/{name}:{tag}")`
abbrev pub reference : String → String → String → String
reference path name tag = path <> ("/" ∷ (name <> (":" ∷ tag)))

pub id-reference :
    (path name tag : String)
    → IsPlain name
    → IsPlain tag
    → derive_adapter_id (reference path name tag) ≡ name <> ("-" ∷ tag)
id-reference path name tag n t =
    derive_adapter_id_tagged path name tag n.no_slash n.no_colon t.no_slash t.no_colon

-- What follows the last dash is the tag, so it is the same in both.
dashed_unique :
    (name tag name' tag' : String)
    → contains "-" tag ≡ false
    → contains "-" tag' ≡ false
    → name <> ("-" ∷ tag) ≡ name' <> ("-" ∷ tag')
    → (name ≡ name') × (tag ≡ tag')
dashed_unique name tag name' tag' h h' same =
    let tags : tag ≡ tag' =
      sym (rsplit_next-append "-" name tag h)
      ∙ ap (rsplit_next "-") same
      ∙ rsplit_next-append "-" name' tag' h' in
    (
      append_cancel_right name name' ("-" ∷ tag) (same ∙ ap (λ t. name' <> ("-" ∷ t)) (sym tags)),
      tags,
    )

-- Two references whose tags have no dash get one identifier only if their names and their tags are the
-- same, whatever the paths.
pub derive_adapter_id_unique :
    (path name tag path' name' tag' : String)
    → IsPlain name
    → IsPlain tag
    → IsPlain name'
    → IsPlain tag'
    → contains "-" tag ≡ false
    → contains "-" tag' ≡ false
    → derive_adapter_id (reference path name tag) ≡ derive_adapter_id (reference path' name' tag')
    → (name ≡ name') × (tag ≡ tag')
derive_adapter_id_unique path name tag path' name' tag' n t n' t' h h' same =
    dashed_unique name tag name' tag' h h'
      (sym (id-reference path name tag n t) ∙ same ∙ id-reference path' name' tag' n' t')

joined-IsPlain : (s t : String) → IsPlain s → IsPlain t → IsPlain (s <> ("-" ∷ t))
unfolding contains
joined-IsPlain s t h k = record {
  no_slash = ground (arith, contains-append "/" s ("-" ∷ t), h.no_slash, k.no_slash);
  no_colon = ground (arith, contains-append ":" s ("-" ∷ t), h.no_colon, k.no_colon);
}

-- With a dash in the tag it does not tell the references apart: `name:middle-tag` and `name-middle:tag` get
-- one identifier, whatever the paths.
pub derive_adapter_id_merges :
    (path path' name middle tag : String)
    → IsPlain name
    → IsPlain middle
    → IsPlain tag
    → derive_adapter_id (reference path name (middle <> ("-" ∷ tag)))
      ≡ derive_adapter_id (reference path' (name <> ("-" ∷ middle)) tag)
derive_adapter_id_merges path path' name middle tag n m t =
    id-reference path name (middle <> ("-" ∷ tag)) n (joined-IsPlain middle tag m t)
    ∙ sym (
        append_assoc name ("-" ∷ middle) ("-" ∷ tag)
        ∙ ap (λ s. name <> s) (cons-append "-" middle ("-" ∷ tag)))
    ∙ sym (id-reference path' (name <> ("-" ∷ middle)) tag (joined-IsPlain name middle n m) t)
