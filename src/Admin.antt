-- ===== src/Admin.antt =====
-- internal/admin: the API for operators. A response has the headers that the code sets besides the type of
-- its content, and a JSON object; `encoded` is a value that is not looked into.
pub mod Token
pub mod Server
pub mod Change
pub mod Policy
pub mod Biz
pub mod Handlers
use unirate.Prelude.{ℕ, Bool, List, [], ◌∷◌}
use unirate.Prelude.Text.{Bytes, codes}
use unirate.Prelude.Int.{ℤ}

pub data Value : Type 0 where
  text : Bytes → Value
  number : ℤ → Value
  flag : Bool → Value
  entries : List (Bytes × Bytes) → Value
  rows : List (List (Bytes × Bytes)) → Value
  encoded : Bytes → Value

pub record Response : Type 0 where
  pub status : ℕ
  pub headers : List (Bytes × Bytes)
  pub body : List (Bytes × Value)

pub write_json : ℕ → List (Bytes × Value) → Response
write_json status body = record { status = status; headers = []; body = body }

pub error_json : ℕ → Bytes → Response
error_json status message = write_json status ((codes "error", text message) ∷ [])
