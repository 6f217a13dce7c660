-- ===== src/Workflow.antt =====
-- What the workflow pages share: the answers to their requests, the texts of their errors, and the
-- value of a section with its two flags. Each page has these functions for itself.
use testnexa.Base.{String, Bool, true, false, Option, none, some, List, [], ◌∷◌, get_elem?, get_or}

-- An entry of the `field_errors` of a body: a list of messages, or one.
pub data FieldMessage : Type 0 where
  several : List String → FieldMessage
  single : String → FieldMessage

-- What a request fails with: an `ApiError`, with its message and the `field_errors` of its body, or
-- anything else that is thrown.
pub data Failure : Type 0 where
  api_error : String → Option (List (String × FieldMessage)) → Failure
  other : Failure

pub data Reply {ℓ} (A : Type ℓ) : Type ℓ where
  ok : A → Reply A
  failed : Failure → Reply A

abbrev pub map_reply {ℓ κ} : {A : Type ℓ} {B : Type κ} → (A → B) → Reply A → Reply B
map_reply f (ok a) = ok (f a)
map_reply f (failed e) = failed e

unfoldable pub error_message : Failure → String
error_message (api_error message errors) = message
error_message other = "Something went wrong. Please try again."

-- `String(message[0])` or `String(message)`
first_message : FieldMessage → String
first_message (several messages) = get_or (get_elem? messages 0) "undefined"
first_message (single message) = message

first_messages : List (String × FieldMessage) → List (String × String)
unfolding first_message
first_messages [] = []
first_messages ((field, message) ∷ errors) = (field, first_message message) ∷ first_messages errors

unfoldable pub server_field_errors : Failure → Option (List (String × String))
unfolding first_messages
server_field_errors (api_error message (some errors)) = some (first_messages errors)
server_field_errors _ = none

-- A section of a page: the value, whether it is loading, and the error of its last request.
pub record Load {ℓ} (A : Type ℓ) : Type ℓ where
  pub value : A
  pub loading : Bool
  pub load_error : Option String

module _ {ℓ} {A : Type ℓ} where
  abbrev pub initial_load : A → Load A
  initial_load a = record { value = a; loading = true; load_error = none }

  -- The start of a request of a section: its two resets.
  abbrev pub begin_load : Load A → Load A
  begin_load l = record l { loading = true; load_error = none }

  -- The answer to a request of a section, with its `finally`. It does not look at what has happened
  -- to the section since the start.
  unfoldable pub receive_load : Reply A → Load A → Load A
  unfolding error_message
  receive_load (ok a) l = record l { value = a; loading = false }
  receive_load (failed e) l = record l { loading = false; load_error = some (error_message e) }

  -- A request of a section, from its two resets to its `finally`.
  unfoldable pub settle_load : Reply A → Load A → Load A
  unfolding error_message
  settle_load (ok a) l = record { value = a; loading = false; load_error = none }
  settle_load (failed e) l = record {
    value = l.value;
    loading = false;
    load_error = some (error_message e);
  }
