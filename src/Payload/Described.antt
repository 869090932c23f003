-- ===== src/Payload/Described.antt =====
-- framework/core/src/quantities/bytes.cpp: `describeValue` of a payload, as a log spells it.
-- `std::to_string` is an argument.
use thorium.Prelude.{
  ℕ, Bool, true, false, ◌&&◌, ◌||◌, [], ◌∷◌, ◌++◌, Text, text, eqb, ltb, leb, if◌then◌else◌, all,
  length,
}
use thorium.Session.{Bytes}
use thorium.Payload.{append_hex}

abbrev pub max_described_body : ℕ
max_described_body = 48

abbrev pub is_renderable_as_text : ℕ → Bool
is_renderable_as_text octet =
    (leb 32 octet && ltb octet 127) || eqb octet b'\t' || eqb octet b'\r' || eqb octet b'\n'

-- What `appendAsText` appends.
abbrev pub as_text : ℕ → Text
as_text octet =
    if eqb octet b'\t'
    then b'\\' ∷ b't' ∷ []
    else if eqb octet b'\r'
    then b'\\' ∷ b'r' ∷ []
    else if eqb octet b'\n'
    then b'\\' ∷ b'n' ∷ []
    else if eqb octet b'\\'
    then b'\\' ∷ b'\\' ∷ []
    else if eqb octet b'"'
    then b'\\' ∷ b'"' ∷ []
    else octet ∷ []

abbrev pub appended : Bool → Text → ℕ → Text
appended true body octet = body ++ as_text octet
appended false body octet = append_hex body octet

-- The loop: the body, and whether it is abridged.
unfoldable pub describe_from : Bool → Text → Bytes → Text × Bool
describe_from is_text body [] = (body, false)
describe_from is_text body (octet ∷ bytes) =
    let rest = describe_from is_text (appended is_text body octet) bytes in
    if leb max_described_body (length body) then (body, true) else rest

abbrev pub enclosed : Bool → Text → Text
enclosed true body = b'"' ∷ (body ++ text "\"")
enclosed false body = b'<' ∷ (body ++ text ">")

abbrev pub ellipsis : Bool → Text
ellipsis true = text "..."
ellipsis false = text " ..."

module _ (to_string : ℕ → Text) where
  abbrev pub described : Bool → Bytes → Text × Bool → Text
  described is_text bytes (body, abridged) =
      if abridged
      then enclosed is_text (body ++ ellipsis is_text)
        ++ (text " (" ++ (to_string (length bytes) ++ text " bytes)"))
      else enclosed is_text body

  unfoldable pub describe_value : Bytes → Text
  describe_value bytes =
      let is_text = all is_renderable_as_text bytes in
      described is_text bytes (describe_from is_text [] bytes)
