-- ===== src/Go.antt =====
-- What the Go language and its library give the operator: errors, string maps, and a few functions
-- on strings and numbers.
pub mod Map
pub mod Text
pub mod Order
pub mod Number
use shardingsphere_on_cloud.Prelude.{String}

-- An `error`. `text` is `errors.New` or `fmt.Errorf` of a message, `wrap` is `fmt.Errorf` with
-- `%w`, `cite` is `fmt.Errorf` with `%v` or `%s` on another error, and `external` is an error
-- that code outside the repository returned.
pub data Error : Type 0 where
  text : String → Error
  wrap : String → Error → Error
  cite : String → Error → Error
  external : String → Error

-- The `(T, error)` that a call returns.
pub data Result (A : Type 0) : Type 0 where
  ok : A → Result A
  err : Error → Result A
