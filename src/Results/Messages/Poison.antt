-- ===== src/Results/Messages/Poison.antt =====
-- Which messages are taken off the queue as poison.
use competition_api.Prelude.{
  String, ◌≡◌, refl, ◌↔◌, Option, none, some, Result, ok, err, Exec, continue,
}
use competition_api.WorkerErrors.{GoError, message, wrapped}
use competition_api.Types.Status.{JobType}
use competition_api.Types.Bundle.{Uuid}
use competition_api.Types.Worker.{MsgType, final, artifact, command_result}
use competition_api.Queue.{HandlerError, poison}
use competition_api.Results.{
  ResultServer, FinalMessage, final_transaction, with_final_id, handle_final_message,
}
use competition_api.Results.Messages.Mild.{
  handle_artifact_message-Mild, handle_command_result_message-Mild, final_transaction-Mild,
}
use competition_api.Results.Messages.{
  ArtifactMessage, ResultMessage, MessageServer, or_poison, handle_artifact_message,
  handle_command_result_message, handle_typed, handle,
}

-- `gorm.DB.Transaction` gives back the error of its function, or one of its own, which is not poison.
pub record IsTransaction {W : Type 0} (h : ResultServer W) : Type 0 where
  pub passes_on :
      (body : Exec W HandlerError (Unit {0})) (w : W) (e : GoError)
      → (body w).0 ≡ err (poison e)
      → (h.transaction body w).0 ≡ err (poison e)
  pub adds_none :
      (body : Exec W HandlerError (Unit {0})) (w : W) (e : GoError)
      → (h.transaction body w).0 ≡ err (poison e)
      → (body w).0 ≡ err (poison e)

-- A message that no delivery can make sense of.
pub data IsPoison {W : Type 0} (h : MessageServer W) (text : String) : Type 0 where
  not_decoded : (e : GoError) → h.decode_base text ≡ err e → IsPoison h text
  no_type : h.decode_base text ≡ ok none → IsPoison h text
  bad_artifact :
      (e : GoError)
      → h.decode_base text ≡ ok (some artifact)
      → h.decode_artifact text ≡ err e
      → IsPoison h text
  bad_result :
      (e : GoError)
      → h.decode_base text ≡ ok (some command_result)
      → h.decode_result text ≡ err e
      → IsPoison h text
  bad_final :
      (e : GoError)
      → h.decode_base text ≡ ok (some final)
      → h.decode_final text ≡ err e
      → IsPoison h text
  bad_id :
      (msg : FinalMessage) (e : GoError)
      → h.decode_base text ≡ ok (some final)
      → h.decode_final text ≡ ok msg
      → h.parse_id msg.entity_id ≡ err e
      → IsPoison h text
  bad_entity :
      (msg : FinalMessage) (id : Uuid)
      → h.decode_base text ≡ ok (some final)
      → h.decode_final text ≡ ok msg
      → h.parse_id msg.entity_id ≡ ok id
      → msg.entity ≡ none
      → IsPoison h text

module _ {W : Type 0} (h : MessageServer W) (transaction : IsTransaction h.result_server)
    (text : String) (w : W) where
  -- Poison that a handler returns.
  abbrev Poisoned : Result HandlerError (Unit {0}) → Type 0
  Poisoned r = (e : GoError) × (r ≡ err (poison e))

  entity-IsPoison :
      (msg : FinalMessage) (id : Uuid)
      → h.decode_base text ≡ ok (some final)
      → h.decode_final text ≡ ok msg
      → h.parse_id msg.entity_id ≡ ok id
      → (entity : Option JobType) → msg.entity ≡ entity
      → Poisoned (h.transaction (final_transaction h.result_server entity id msg) w).0
      → IsPoison h text
  entity-IsPoison msg id d f i none e p = bad_entity msg id d f i e
  entity-IsPoison msg id d f i (some kind) e p = absurd (
      (final_transaction-Mild h kind id msg).at w p.0
        (transaction.adds_none (final_transaction h.result_server (some kind) id msg) w p.0 p.1))

  id-IsPoison :
      (msg : FinalMessage)
      → h.decode_base text ≡ ok (some final)
      → h.decode_final text ≡ ok msg
      → (id : Result GoError Uuid) → h.parse_id msg.entity_id ≡ id
      → Poisoned (with_final_id h.result_server msg id w).0
      → IsPoison h text
  id-IsPoison msg d f (err x) i p = bad_id msg x d f i
  id-IsPoison msg d f (ok id) i p = entity-IsPoison msg id d f i msg.entity refl p

  final-IsPoison :
      h.decode_base text ≡ ok (some final)
      → (r : Result GoError FinalMessage) → h.decode_final text ≡ r
      → Poisoned (continue (or_poison r) (handle_final_message h.result_server) w).0
      → IsPoison h text
  unfolding handle_final_message
  final-IsPoison d (err x) f p = bad_final x d f
  final-IsPoison d (ok msg) f p = id-IsPoison msg d f (h.parse_id msg.entity_id) refl p

  artifact-IsPoison :
      h.decode_base text ≡ ok (some artifact)
      → (r : Result GoError ArtifactMessage) → h.decode_artifact text ≡ r
      → Poisoned (continue (or_poison r) (λ msg. handle_artifact_message h msg.entity msg) w).0
      → IsPoison h text
  artifact-IsPoison d (err x) f p = bad_artifact x d f
  artifact-IsPoison d (ok msg) f p =
      absurd ((handle_artifact_message-Mild h msg.entity msg).at w p.0 p.1)

  result-IsPoison :
      h.decode_base text ≡ ok (some command_result)
      → (r : Result GoError ResultMessage) → h.decode_result text ≡ r
      → Poisoned
          (continue (or_poison r) (λ msg. handle_command_result_message h msg.entity msg) w).0
      → IsPoison h text
  result-IsPoison d (err x) f p = bad_result x d f
  result-IsPoison d (ok msg) f p =
      absurd ((handle_command_result_message-Mild h msg.entity msg).at w p.0 p.1)

  decoded-IsPoison :
      (r : Result GoError (Option MsgType))
      → h.decode_base text ≡ r
      → Poisoned (continue (or_poison r) (λ kind. handle_typed h kind text) w).0
      → IsPoison h text
  decoded-IsPoison (err x) d p = not_decoded x d
  decoded-IsPoison (ok none) d p = no_type d
  decoded-IsPoison (ok (some artifact)) d p = artifact-IsPoison d (h.decode_artifact text) refl p
  decoded-IsPoison (ok (some command_result)) d p = result-IsPoison d (h.decode_result text) refl p
  decoded-IsPoison (ok (some final)) d p = final-IsPoison d (h.decode_final text) refl p

  IsPoison-Poisoned : IsPoison h text → Poisoned (handle h text w).0
  unfolding handle handle_final_message final_transaction
  IsPoison-Poisoned (not_decoded e d) = (e, rw d refl)
  IsPoison-Poisoned (no_type d) = (message "queue message type not found", rw d refl)
  IsPoison-Poisoned (bad_artifact e d f) = (e, rw (d, f) refl)
  IsPoison-Poisoned (bad_result e d f) = (e, rw (d, f) refl)
  IsPoison-Poisoned (bad_final e d f) = (e, rw (d, f) refl)
  IsPoison-Poisoned (bad_id msg e d f i) =
      (wrapped "failed to parse entity ID as UUID" e, rw (d, f, i) refl)
  IsPoison-Poisoned (bad_entity msg id d f i e) = (
    message "unsupported entity",
    rw (d, f, i, e)
        (transaction.passes_on (final_transaction h.result_server none id msg) w
          (message "unsupported entity") refl),
  )

  -- A message is taken off the queue as poison exactly if no delivery can make sense of it: it or its
  -- type cannot be read, or it is final and its id is no UUID or its entity is unknown; whatever the
  -- state of the world; while a transaction passes on the poison of its function and adds none.
  pub handle-IsPoison : ((e : GoError) × ((handle h text w).0 ≡ err (poison e))) ↔ IsPoison h text
  unfolding handle
  handle-IsPoison = (decoded-IsPoison (h.decode_base text) refl, IsPoison-Poisoned)
