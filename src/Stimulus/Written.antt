-- ===== src/Stimulus/Written.antt =====
-- A line `key = payload` of a stimulus file, with the payload the way a log spells it.
use thorium.Prelude.{
  ℕ, Bool, true, false, Option, some, [], ◌∷◌, ◌++◌, Text, text, all, All, if◌then◌else◌, ◌≡◌, ◌≢◌,
  refl, ap, sym, subst, ◌∙◌, arith,
}
use mathlib.Core.List.{append_assoc}
use thorium.Session.{Bytes}
use thorium.Session.Loading.{payload, RecordedValue}
use thorium.Payload.{hex_from}
use thorium.Payload.Hex.{AreOctets}
use thorium.Payload.Described.{
  describe_from, described, enclosed, is_renderable_as_text, describe_value,
}
use thorium.Stimulus.{
  is_blank, trim_front, trimmed, cut_comment, without_comment, inside, split_from, split_values,
}
use thorium.Stimulus.Values.{parse_value}
use thorium.Stimulus.Programs.{
  parse_values, content_of, separated, keyed_entry, entry_of, and_value, parse_line, malformed,
  entry,
}
use thorium.Stimulus.Payloads.{
  escape_all, describe_from-text, describe_from-hex, parse_value-describe_value,
}
use thorium.Stimulus.Keys.{
  trimmed-solid, IsKeyByte-solid, trimmed-key, has_blank-key, at_separator-key, key-unquoted,
}
use thorium.Stimulus.Lines.{
  IsInert, IsKeyByte, cut_comment-unquoted, cut_comment-escape_all, split_from-escape_all,
  split_from-inert, hex_from-IsInert,
}

-- A text between two bytes that are not blank, which is cut nowhere.
record IsToken (token : Text) : Type 0 where
  first : ℕ
  inner : Text
  last : ℕ
  bounded : token ≡ first ∷ (inner ++ last ∷ [])
  solid : (is_blank first ≡ false) × (is_blank last ≡ false)
  kept : cut_comment false false token ≡ token
  alone :
      (since : Text) → split_from false false (inside 0) since token ≡ trimmed (since ++ token) ∷ []

quoted-IsToken : (bytes : Bytes) → IsToken (enclosed true (escape_all bytes))
unfolding cut_comment split_from
quoted-IsToken bytes = record {
  first = b'"';
  inner = escape_all bytes;
  last = b'"';
  bounded = refl;
  solid = (refl, refl);
  kept = ap (◌∷◌ b'"') (cut_comment-escape_all false bytes);
  alone = λ since.
      split_from-escape_all false (since ++ b'"' ∷ []) bytes
      ∙ ap (λ t. trimmed t ∷ []) (append_assoc since (b'"' ∷ []) (escape_all bytes ++ text "\""));
}

All-unquoted : (s : Text) → All IsInert s → All (λ c. (c ≢ b'"') × (c ≢ b'#')) s
All-unquoted [] h = tt
All-unquoted (c ∷ s) h = ((h.0.0, h.0.1), All-unquoted s h.1)

hex-IsToken : (bytes : Bytes) → AreOctets bytes → IsToken (enclosed false (hex_from [] bytes))
unfolding cut_comment split_from
hex-IsToken bytes o =
    let inert : All IsInert (hex_from [] bytes) = hex_from-IsInert [] bytes tt o in
    record {
      first = b'<';
      inner = hex_from [] bytes;
      last = b'>';
      bounded = refl;
      solid = (refl, refl);
      kept = ap (◌∷◌ b'<') (
          cut_comment-unquoted false (hex_from [] bytes) [] b'>' (All-unquoted _ inert)
            (λ e. omega (arith, e)) (λ e. omega (arith, e)));
      alone = λ since.
          split_from-inert false (since ++ b'<' ∷ []) (hex_from [] bytes) inert
          ∙ ap (λ t. trimmed t ∷ [])
              (append_assoc since (b'<' ∷ []) (hex_from [] bytes ++ text ">"));
    }

module _ (to_string : ℕ → Text) (from_chars : Text → Option (ℕ × Text))
    (open_file : Text → Option Text) where
  described-IsToken :
      (bytes : Bytes) (is_text : Bool)
      → AreOctets bytes
      → (describe_from is_text [] bytes).1 ≡ false
      → IsToken (described to_string is_text bytes (describe_from is_text [] bytes))
  described-IsToken bytes true o e =
      subst IsToken
        (sym (
          ap (λ b. described to_string true bytes ((describe_from true [] bytes).0, b)) e
          ∙ ap (enclosed true) (describe_from-text bytes [] e)))
        (quoted-IsToken bytes)
  described-IsToken bytes false o e =
      subst IsToken
        (sym (
          ap (λ b. described to_string false bytes ((describe_from false [] bytes).0, b)) e
          ∙ ap (enclosed false) (describe_from-hex bytes [] e)))
        (hex-IsToken bytes o)

  trimmed-blank : (s : Text) → trimmed (32 ∷ s) ≡ trimmed s
  unfolding trimmed trim_front
  trimmed-blank s = refl

  -- Behind the separator stands a token and nothing else.
  split_values-token : (token : Text) → IsToken token → split_values (32 ∷ token) ≡ token ∷ []
  unfolding split_values split_from
  split_values-token token t =
      t.alone (32 ∷ [])
      ∙ ap (λ x. x ∷ [])
          (ap trimmed (ap (◌∷◌ 32) t.bounded)
            ∙ trimmed-blank (t.first ∷ (t.inner ++ t.last ∷ []))
            ∙ trimmed-solid t.first t.last t.inner t.solid.0 t.solid.1
            ∙ sym t.bounded)

  without_comment-line :
      (key token : Text)
      → All IsKeyByte key
      → IsToken token
      → without_comment (key ++ (text " = " ++ token)) ≡ key ++ (text " = " ++ token)
  unfolding cut_comment
  without_comment-line key token h t =
      cut_comment-unquoted false key (b'=' ∷ 32 ∷ token) 32 (key-unquoted key h)
        (λ e. omega (arith, e)) (λ e. omega (arith, e))
      ∙ ap (λ x. key ++ (text " = " ++ x)) t.kept

  trimmed-line :
      (c : ℕ) (key token : Text)
      → All IsKeyByte (c ∷ key)
      → IsToken token
      → trimmed (c ∷ (key ++ (text " = " ++ token))) ≡ c ∷ (key ++ (text " = " ++ token))
  trimmed-line c key token h t =
      ap trimmed bounded
      ∙ trimmed-solid c t.last (key ++ (text " = " ++ t.first ∷ t.inner)) (IsKeyByte-solid c h.0)
          t.solid.1
      ∙ sym bounded
    where
      bounded :
          c ∷ (key ++ (text " = " ++ token))
          ≡ c ∷ ((key ++ (text " = " ++ t.first ∷ t.inner)) ++ t.last ∷ [])
      bounded =
          ap (λ x. c ∷ (key ++ (text " = " ++ x))) t.bounded
          ∙ ap (◌∷◌ c) (sym (append_assoc key (text " = " ++ t.first ∷ t.inner) (t.last ∷ [])))

  parse_line-token :
      (c : ℕ) (key token : Text) (value : RecordedValue)
      → All IsKeyByte (c ∷ key)
      → IsToken token
      → parse_value from_chars open_file token ≡ some value
      → parse_line from_chars open_file (c ∷ (key ++ (text " = " ++ token)))
        ≡ entry (c ∷ key) (value ∷ [])
  unfolding parse_line parse_values
  parse_line-token c key token value h t e =
      ap (λ s. content_of from_chars open_file (trimmed s))
        (without_comment-line (c ∷ key) token h t)
      ∙ ap (content_of from_chars open_file) (trimmed-line c key token h t)
      ∙ ap (separated from_chars open_file) (at_separator-key (c ∷ key) (32 ∷ token) h)
      ∙ ap (λ k. keyed_entry from_chars open_file k (32 ∷ token)) (trimmed-key c key h)
      ∙ ap
          (λ b.
            if b
            then malformed
            else entry_of from_chars open_file (c ∷ key)
                (parse_values from_chars open_file (split_values (32 ∷ token))))
          (has_blank-key (c ∷ key) h)
      ∙ ap (λ ts. entry_of from_chars open_file (c ∷ key) (parse_values from_chars open_file ts))
          (split_values-token token t)
      ∙ ap
          (λ v.
            entry_of from_chars open_file (c ∷ key) (and_value from_chars open_file v (some [])))
          e

  -- A line of a stimulus file that consists of a key, ` = ` and what a log shows for a payload of
  -- octets, where the log does not abridge it, is read as that key with that one payload. The key
  -- is not empty and has no byte up to 32, so neither a blank nor a tab, and no quote, hash or equals
  -- sign.
  pub parse_line-describe_value :
      (c : ℕ) (key : Text) (bytes : Bytes)
      → All IsKeyByte (c ∷ key)
      → AreOctets bytes
      → (describe_from (all is_renderable_as_text bytes) [] bytes).1 ≡ false
      → parse_line from_chars open_file
          (c ∷ (key ++ (text " = " ++ describe_value to_string bytes)))
        ≡ entry (c ∷ key) (payload bytes ∷ [])
  unfolding describe_value
  parse_line-describe_value c key bytes h o short =
      parse_line-token c key _ (payload bytes) h
        (described-IsToken bytes (all is_renderable_as_text bytes) o short)
        (parse_value-describe_value to_string from_chars open_file bytes o short)
