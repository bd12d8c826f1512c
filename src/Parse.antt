-- ===== src/Parse.antt =====
-- libcppgnss/include/cppgnss/parse.hpp: ParseError, ParseResult and `parse<T>`. The generated message
-- types T are not part of the repository: what `parse` uses of one is the record MessageType.
use Prim.Native.String.{String}
use neo_gnss_observatory.Base.{ℕ, Bool, not, if◌then◌else◌, Option, none, some}
use neo_gnss_observatory.Frame.{Protocol, FrameView, protocol, same_protocol}

pub data ParseErrorCode : Type 0 where
  wrong_protocol wrong_message unsupported_revision unsupported_layout invalid_payload :
      ParseErrorCode

pub record ParseError : Type 0 where
  pub code : ParseErrorCode
  pub error_offset : Option ℕ
  pub detail : String

-- std::variant<ParsedMessage<T>, ParseError>.
pub data ParseResult (A : Type 0) : Type 0 where
  parsed : A → ℕ → ParseResult A
  refused : ParseError → ParseResult A

module _ {A : Type 0} where
  -- The accessors throw std::logic_error on the other alternative.
  pub value : ParseResult A → Option A
  value (parsed a n) = some a
  value (refused e) = none

  pub error : ParseResult A → Option ParseError
  error (parsed a n) = none
  error (refused e) = some e

  pub consumed : ParseResult A → Option ℕ
  consumed (parsed a n) = some n
  consumed (refused e) = none

-- The static members of a generated message type.
pub record MessageType (A : Type 0) : Type 0 where
  pub message_protocol : Protocol
  pub matches : FrameView → Bool
  pub decode_payload : FrameView → ParseResult A

unfoldable pub parse : {A : Type 0} → MessageType A → FrameView → ParseResult A
parse t frame =
    if not (same_protocol (protocol frame) t.message_protocol)
    then refused (record { code = wrong_protocol; error_offset = none; detail = "Wrong protocol" })
    else if not (t.matches frame)
    then refused (record { code = wrong_message; error_offset = none; detail = "Wrong message ID" })
    else t.decode_payload frame
