-- ===== src/UpdateService/Adapter/Ids.antt =====
-- What `derive_adapter_id` makes of an image reference.
use Prim.Native.String.{◌∷◌}
use parking_fee_service.Prelude.{String, ◌<>◌, ◌≡◌, ◌∙◌, ap, refl, false, arith}
use parking_fee_service.Prelude.Text.{
  contains, rsplit_next, replace, contains-append, contains-rsplit_next, rsplit_next_absent,
  rsplit_next-append, contains-replace_from, contains-replace, replace_absent, replace-append,
  replace-cons_from,
}
use parking_fee_service.UpdateService.Adapter.{derive_adapter_id}

-- An adapter identifier holds no slash and no colon, whatever the image reference.
derive_adapter_id_clean :
    (image_ref : String)
    → (contains "/" (derive_adapter_id image_ref) ≡ false)
      × (contains ":" (derive_adapter_id image_ref) ≡ false)
unfolding derive_adapter_id
derive_adapter_id_clean image_ref = (
  contains-replace ":" "-" "/" (rsplit_next "/" image_ref) refl
      (contains-rsplit_next "/" image_ref),
  contains-replace_from ":" "-" (rsplit_next "/" image_ref) refl,
)

-- Deriving again changes nothing.
derive_adapter_id_idem :
    (image_ref : String)
    → derive_adapter_id (derive_adapter_id image_ref) ≡ derive_adapter_id image_ref
unfolding derive_adapter_id
derive_adapter_id_idem image_ref =
    let id = derive_adapter_id image_ref in
    ap (replace ":" "-") (rsplit_next_absent "/" id (derive_adapter_id_clean image_ref).0)
    ∙ replace_absent ":" "-" id (derive_adapter_id_clean image_ref).1

tagged_slash :
    (name tag : String)
    → contains "/" name ≡ false
    → contains "/" tag ≡ false
    → contains "/" (name <> (":" ∷ tag)) ≡ false
unfolding contains
tagged_slash name tag h k = ground (arith, contains-append "/" name (":" ∷ tag))

-- Of `path/name:tag`, with no slash or colon in the name and the tag, the identifier is `name-tag`.
pub derive_adapter_id_tagged :
    (path name tag : String)
    → contains "/" name ≡ false
    → contains ":" name ≡ false
    → contains "/" tag ≡ false
    → contains ":" tag ≡ false
    → derive_adapter_id (path <> ("/" ∷ (name <> (":" ∷ tag)))) ≡ name <> ("-" ∷ tag)
unfolding derive_adapter_id
derive_adapter_id_tagged path name tag h₁ h₂ h₃ h₄ =
    ap (replace ":" "-")
      (rsplit_next-append "/" path (name <> (":" ∷ tag)) (tagged_slash name tag h₁ h₃))
    ∙ replace-append ":" "-" name (":" ∷ tag)
    ∙ cc (
      replace_absent ":" "-" name h₂,
      replace_absent ":" "-" tag h₄,
      replace-cons_from ":" "-" tag,
    )
