-- ===== src/Consent/Tests.antt =====
-- The theorems about shared/model/consent.js at concrete inputs, and small runs.
use beepa.Prelude.{
  String, true, false, List, [], ◌∷◌, ◌≡◌, ◌↔◌, refl, map, get_or, arith, eq_iff, or_else,
}
use beepa.Js.{Value, null, str, obj, arr, cons, nil, field, end, get, Fields}
use beepa.Consent.Level.{
  Level, share, direct, private, resolve, effective_shared, resolve_all, as_map, Row, override_for,
  normalize_override, level_of, policy_default_level,
}
use beepa.Consent.Level.Authority
use beepa.Consent.Level.Authority.{IsAuthorized, Carries, is_mirrored, reason_level}
use beepa.Consent.Policy.{source_rule}
use beepa.Consent.ContactShare.{resolve_contact_share}
use beepa.Consent.ContactShare.Layers
use beepa.Consent.ContactShare.Layers.{IsUnreadable, override_says, source_says, global_says}

abbrev direct_default : Value
direct_default = obj (field "default_level" (str "direct") end)

abbrev junk : Value
junk = obj (field "state" (str "inherit") end)

abbrev chat : Value
chat = obj (field "id" (str "!a:localhost") end)

effective_shared_iff_example :
    (effective_shared chat direct_default junk null ≡ true) ↔ IsAuthorized junk direct_default
effective_shared_iff_example = Authority.effective_shared_iff chat direct_default junk null

inherit_is_no_level : (l : Level) → ¬ Carries (str "inherit") l
inherit_is_no_level share e = ground (arith, eq_iff "inherit" "share")
inherit_is_no_level direct e = ground (arith, eq_iff "inherit" "direct")
inherit_is_no_level private e = ground (arith, eq_iff "inherit" "private")

abbrev chats : Value
chats = arr (cons chat (cons null nil))

abbrev chat_overrides : List (String × Value)
chat_overrides = ("!a:localhost", str "private") ∷ []

-- The explicit `private` beats the default, and the entry that is no object takes the default.
rows_of_chats :
    map (λ (r : Row). r.shared) (resolve_all chats direct_default (as_map chat_overrides))
    ≡ false ∷ true ∷ []
unfolding resolve_all resolve override_for normalize_override level_of policy_default_level
rows_of_chats = refl

abbrev stored_policy : Value
stored_policy = obj (
    field "sources"
      (obj (field "imessage" (str "private-all") (field "__proto__" (str "share-all") end)))
      (field "global" (str "share-all") (field "default_level" (str "everyone") end)))

resolve_contact_share-layers_example :
    (resolve_contact_share (str "imessage") stored_policy null).shared
    ≡ get_or
        (or_else (override_says null) (
          or_else
            (source_says (source_rule (get stored_policy "sources") (str "imessage")))
            (global_says stored_policy)))
        false
resolve_contact_share-layers_example =
    Layers.resolve_contact_share-layers (str "imessage") stored_policy null

abbrev stored_overrides : Fields
stored_overrides =
    field "imessage|1" (str "private")
      (field "imessage|2" (str "hidden") (field "nokey" (str "share") end))

abbrev overrides_event : Value
overrides_event = obj (field "overrides" (obj stored_overrides) end)

abbrev override_event : String → Value
override_event level = obj (
    field "type" (str "com.jkali.share_override")
      (field "content" (obj (field "state" (str level) end)) end))

abbrev sync_data : Value
sync_data = obj (
    field "rooms"
      (obj (
        field "join"
          (obj (
            field "!a:localhost"
              (obj (
                field "account_data"
                  (obj (
                    field "events"
                      (arr (cons (override_event "direct") (cons (override_event "share") nil)))
                      end))
                  end))
              end))
          end))
      end)
