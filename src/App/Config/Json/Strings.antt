-- ===== src/App/Config/Json/Strings.antt =====
-- `EscapeJson` and `JsonParser::ParseString` of src/app/Config.cpp, one after the other.
use ipad_second_display.Common.{
  ℕ, ◌+◌, ◌*◌, ◌/◌, ◌%◌, ◌<◌, ◌≡◌, refl, ap, ◌∙◌, subst, sym, inl, inr, true, [], ◌∷◌, ◌++◌,
  append-nil, append_assoc, some, ◌==◌, ==_iff, ltb, ltb→lt, leb, Bytes, arith, Bool-cases,
}
use ipad_second_display.App.Config.Json.{string_rest, at_byte, hex_value, utf8}
use ipad_second_display.App.Config.Serialize.{hex_digit, escape_byte, escape_json}

hex_value-hex_digit : (d : ℕ) → d < 16 → hex_value (hex_digit d) ≡ some d
hex_value-hex_digit d h = ground arith

control_byte :
    (c : ℕ) (text out : Bytes)
    → c < 0x20
    → string_rest at_byte
        (b'\\' ∷ b'u' ∷ b'0' ∷ b'0' ∷ hex_digit (c / 16) ∷ hex_digit (c % 16) ∷ text)
        out
      ≡ string_rest at_byte text (out ++ c ∷ [])
unfolding string_rest utf8
control_byte c text out h =
    let whole : ((0 * 16 + 0) * 16 + c / 16) * 16 + c % 16 ≡ c = omega arith in
    let small : leb c 0x7F ≡ true = ground arith in
    rw
      (
        hex_value-hex_digit (c / 16) (omega arith),
        hex_value-hex_digit (c % 16) (omega arith),
        whole,
        small,
      )
      refl

abbrev ReadsBack : Bytes → Bytes → ℕ → Type 0
ReadsBack text out c =
    string_rest at_byte (escape_byte c ++ text) out ≡ string_rest at_byte text (out ++ c ∷ [])

-- The byte for which an escape of its own stands.
own_escape :
    (c b : ℕ) (text out : Bytes) → (c == b) ≡ true → ReadsBack text out b → ReadsBack text out c
own_escape c b text out e h = subst (ReadsBack text out) (sym ((==_iff c b).0 e)) h

escaped_byte : (c : ℕ) (text out : Bytes) → ReadsBack text out c
unfolding string_rest
escaped_byte c text out = elim (Bool-cases (c == b'"')) [
  | inl quote ↦ own_escape c b'"' text out quote refl
  | inr not_quote ↦ elim (Bool-cases (c == b'\\')) [
    | inl backslash ↦ own_escape c b'\\' text out backslash refl
    | inr not_backslash ↦ elim (Bool-cases (c == 8)) [
      | inl backspace ↦ own_escape c 8 text out backspace refl
      | inr not_backspace ↦ elim (Bool-cases (c == 12)) [
        | inl feed ↦ own_escape c 12 text out feed refl
        | inr not_feed ↦ elim (Bool-cases (c == 10)) [
          | inl newline ↦ own_escape c 10 text out newline refl
          | inr not_newline ↦ elim (Bool-cases (c == 13)) [
            | inl carriage ↦ own_escape c 13 text out carriage refl
            | inr not_carriage ↦ elim (Bool-cases (c == 9)) [
              | inl tab ↦ own_escape c 9 text out tab refl
              | inr not_tab ↦ elim (Bool-cases (ltb c 0x20)) [
                | inl control ↦
                    rw
                      (
                        not_quote, not_backslash, not_backspace, not_feed, not_newline,
                        not_carriage, not_tab, control,
                      )
                      (control_byte c text out (ltb→lt c 0x20 control))
                | inr plain ↦
                    rw
                      (
                        not_quote, not_backslash, not_backspace, not_feed, not_newline,
                        not_carriage, not_tab, plain,
                      )
                      (rw (not_quote, plain, not_backslash) refl)
              ]
            ]
          ]
        ]
      ]
    ]
  ]
]

-- An escaped text, up to its closing quote, reads back as it was.
pub string_rest-escape_json :
    (s rest out : Bytes)
    → string_rest at_byte (escape_json s ++ b'"' ∷ rest) out ≡ some (out ++ s, rest)
unfolding string_rest escape_json
string_rest-escape_json [] rest out = ap (λ o. some (o, rest)) (sym (append-nil out))
string_rest-escape_json (c ∷ s) rest out =
    ap (λ t. string_rest at_byte t out) (append_assoc (escape_byte c) (escape_json s) (b'"' ∷ rest))
    ∙ escaped_byte c (escape_json s ++ b'"' ∷ rest) out
    ∙ string_rest-escape_json s rest (out ++ c ∷ [])
    ∙ ap (λ o. some (o, rest)) (append_assoc out (c ∷ []) s)
