-- ===== src/Tests/Queue.antt =====
-- A queue of results with one message, for a submission that was accepted.
use mathlib.Core.Logic.Or
use mathlib.Core.HLevel.{⊥_prop}
use mathlib.Core.List.{Mem, mem-cons_self, not-mem-nil, eq-or-mem_of_mem-cons}
use text.Mathlib.TextEquality.{eq_iff}
use competition_api.Prelude.{
  sym, if◌then◌else◌, str_eq, ap, ◌∙◌, ℕ, zero, suc, ◌≡◌, refl, ◌↔◌, arith, String, Bool, true,
  false, ◌⊎◌, inl, inr, none, some, List, [], ◌∷◌, Result, ok, err, pure, raise,
}
use competition_api.WorkerErrors.{GoError, message}
use competition_api.Types.Worker.{final}
use competition_api.Queue.{QueueMessage, QueueClient, MessageHandler, HandlerError, poison, dequeue}
use competition_api.Queue.Arriving.{now, later, Treated, dequeue-Treated}
use competition_api.Queue.Kept.{IsQueue, IsSettled, dequeue-Kept}
use competition_api.Results.Views.{Seen}
use competition_api.Results.Messages.{Body, MessageServer, handle}
use competition_api.Results.Messages.Poison.{IsTransaction, IsPoison, handle-IsPoison}
use competition_api.Tests.Results.{server, ended, fresh, message_failed}

-- The world of the queue: a message that arrives after so many rounds, and whether it is still there.
abbrev one : QueueMessage
one = record { message_id = "1"; pop_receipt = "r"; text = "final" }

abbrev there : Bool → List QueueMessage
there true = one ∷ []
there false = []

abbrev shown : ℕ → Bool → List QueueMessage
shown zero b = there b
shown (suc n) b = []

abbrev sooner : ℕ → ℕ
sooner zero = zero
sooner (suc n) = n

abbrev client : QueueClient (ℕ × Bool)
client = record {
  dequeue_message = λ w. (ok (shown w.0 w.1), w);
  delete_message = λ id receipt w. (ok tt, (w.0, if str_eq id "1" then false else w.1));
  enqueue_message = λ text. pure tt;
  wait = λ w. (none, (sooner w.0, w.1));
}

abbrev refusing : MessageHandler (ℕ × Bool)
refusing text = raise (poison (message "no type"))

one_id : (x : QueueMessage) → Mem x (one ∷ []) → x.message_id ≡ "1"
one_id x i = decided (str_eq x.message_id "1") refl
  where
    decided : (same : Bool) → str_eq x.message_id "1" ≡ same → x.message_id ≡ "1"
    decided true e = (eq_iff x.message_id "1").0 e
    decided false e = absurd (
        Or.elim ⊥_prop (eq-or-mem_of_mem-cons i)
          (λ p. cc (e, (eq_iff x.message_id "1").1 (ap (λ m. m.message_id) p))) not-mem-nil)

deletes_one :
    (id : String) (x : QueueMessage) (b : Bool)
    → Mem x (there b)
    → (same : Bool) → str_eq id "1" ≡ same
    → (x.message_id ≡ id) ⊎ Mem x (there (if same then false else b))
deletes_one id x b i false e = inr i
deletes_one id x true i true e = inl (one_id x i ∙ sym ((eq_iff id "1").0 e))
deletes_one id x false i true e = inr i

client-IsQueue : IsQueue client refusing (λ w. there w.1)
client-IsQueue = record {
  dequeue_keeps = λ w. refl;
  wait_keeps = λ w. refl;
  handler_keeps = λ text w. refl;
  deletes_one = λ id receipt x w i. deletes_one id x w.1 i (str_eq id "1") refl;
}

dequeue-Kept_example :
    Mem one (there (dequeue client 5 refusing (2, true)).1.1)
    ⊎ IsSettled client refusing 5 (2, true) one
dequeue-Kept_example =
    dequeue-Kept client refusing (λ w. there w.1) client-IsQueue 5 one (2, true) mem-cons_self

dequeue-Treated_example :
    Treated client one
      (0, true)
      (err (poison (message "no type")))
      (dequeue client 5 refusing (1, true))
dequeue-Treated_example =
    dequeue-Treated client refusing 1 5
      (later 0 (1, true) (1, true) (0, true) (0, true) one refl refl
        (now (0, true) (0, true) one refl))
      (omega arith)

abbrev body : Body Seen
body = record { read_all = pure "body"; close = λ w. w }

-- The server of results, with final messages only; the queue delivers one for ever.
abbrev messages : MessageServer Seen
messages = record {
  result_server = server;
  decode_base = λ text. ok (some final);
  decode_artifact = λ text. err (message "not an artifact");
  decode_result = λ text. err (message "not a result");
  decode_final = λ text. ok message_failed;
  marshal_artifacts = λ artifacts. ok "[]";
  marshal_result = λ result. ok "{}";
  append_artifacts = λ id json. pure tt;
  append_results = λ id json. pure tt;
  fetch = λ name. pure body;
  archiver = record {
    upload = λ reader size name. pure tt;
    exists = λ name. pure false;
    store_identifier = pure "bucket";
    presigned_read_url = λ name duration. pure name;
  };
  bytes_reader = λ text. record { seek_start = pure tt; read_all = pure text };
  submission_by_id = λ kind id. raise (message "not found");
  id_text = λ id. "id";
  print_line = λ line w. w;
}

abbrev for_ever : QueueClient Seen
for_ever = record {
  dequeue_message = pure (one ∷ []);
  delete_message = λ id receipt. raise (message "gone");
  enqueue_message = λ text. pure tt;
  wait = λ w. (none, w);
}

server-IsTransaction : IsTransaction server
server-IsTransaction = record {
  passes_on = λ body s e q. passes s (body s).0 (body s).1 e q;
  adds_none = λ body s e q. adds s (body s).0 (body s).1 e q;
}
  where
    passes :
        (s : Seen) (r : Result HandlerError (Unit {0})) (t : Seen) (e : GoError)
        → r ≡ err (poison e)
        → (ended s (r, t)).0 ≡ err (poison e)
    passes s (ok x) t e q = q
    passes s (err x) t e q = q

    adds :
        (s : Seen) (r : Result HandlerError (Unit {0})) (t : Seen) (e : GoError)
        → (ended s (r, t)).0 ≡ err (poison e)
        → r ≡ err (poison e)
    adds s (ok x) t e q = q
    adds s (err x) t e q = q

handle-IsPoison_example :
    ((e : GoError) × ((handle messages "final" fresh).0 ≡ err (poison e)))
    ↔ IsPoison messages "final"
handle-IsPoison_example = handle-IsPoison messages server-IsTransaction "final" fresh
