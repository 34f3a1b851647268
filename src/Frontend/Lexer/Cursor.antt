-- ===== src/Frontend/Lexer/Cursor.antt =====
-- The lexer's state and its cursor: bootstrap/include/private/frontend/lexer/lexer.h and
-- bootstrap/src/frontend/lexer/lexer_cursor_*.c, lexer_lifecycle_*.c. Lexer and token pointers are not
-- null. Of the diagnostic only what the lexer sets is kept: its code, its span and its wording.
pub mod Motion
use sultanc.Prelude.{
  starts_with, ℕ, zero, suc, ◌+◌, ◌%◌, ◌^◌, Bool, true, false, not, ◌&&◌, Option, none, some, List,
  [], ◌∷◌, length, drop, take, get_or, leb, ◌==◌, if◌then◌else◌, wrap64, wrap32,
}
use sultanc.Core.Source.{SourceFile, SourcePosition, SourceSpan, source_slice}
use sultanc.Support.Utf8.{is_continuation_byte}
use sultanc.Support.Arena
use sultanc.Frontend.Token.{
  TokenKind, PayloadKind, payload_none, payload_index, payload_integer, payload_text,
  payload_character, payload_boolean, payload_kind_of, IntegerLiteral, Payload, no_payload,
  index_payload, integer_payload, text_payload, character_payload, boolean_payload, Token,
}

-- The codes of `__Error_Id__` that the lexer reports.
pub data ErrorId : Type 0 where
  syntax_error invalid_utf8_byte internal_context_error : ErrorId

-- The wordings of `__Diagnostic_Wording_Key__` that the lexer reports.
pub data WordingKey : Type 0 where
  word_e1100 word_invalid_integer word_invalid_initial_utf8 word_unexpected_character
        word_unterminated_escape word_bad_hex_escape word_bad_unicode_escape word_bad_escape
        word_internal_oom word_invalid_utf8_string word_unterminated_string
        word_unterminated_character word_unterminated_character_escape word_bad_character_escape
        word_invalid_utf8_character :
      WordingKey

pub record Diagnostic : Type 0 where
  pub id : ErrorId
  pub span : SourceSpan
  pub message_key : WordingKey

-- `__Lexer__`
pub record Lexer : Type 0 where
  pub source : SourceFile
  pub offset : ℕ
  pub line : ℕ
  pub column : ℕ
  pub literal_arena : Arena.Arena
  pub diagnostic : Option Diagnostic
  pub failed : Bool

-- `__Lexer_Init__`
unfoldable pub init : SourceFile → Lexer
init source = record {
  source = source;
  offset = 0;
  line = 1;
  column = 0;
  literal_arena = Arena.init 4096;
  diagnostic = none;
  failed = false;
}

-- `__Lexer_Diagnostic__`
unfoldable pub current_diagnostic : Lexer → Option Diagnostic
current_diagnostic lexer = if not lexer.failed then none else lexer.diagnostic

-- `__Lexer_Has__`
unfoldable pub has : Lexer → ℕ → Bool
has lexer count = leb (wrap64 (lexer.offset + count)) (length lexer.source.bytes)

-- `__Lexer_Peek__`
unfoldable pub peek : Lexer → ℕ → ℕ
unfolding has
peek lexer ahead =
    if not (has lexer (ahead + 1)) then 0 else get_or lexer.source.bytes (lexer.offset + ahead) 0

-- `__Lexer_Matches__`
unfoldable pub matches : Lexer → List ℕ → Bool
unfolding has
matches lexer text =
    has lexer (length text) && starts_with (drop lexer.offset lexer.source.bytes) text

-- One round of the loop of `__Lexer_Advance_Bytes__`.
unfoldable pub advance_one : Lexer → Lexer
unfolding peek
advance_one lexer =
    let byte = peek lexer 0 in
    let moved = record lexer { offset = wrap64 (lexer.offset + 1) } in
    if byte == 0x0a
    then record moved { line = wrap32 (lexer.line + 1); column = 0 }
    else if not (is_continuation_byte byte)
    then record moved { column = wrap32 (lexer.column + 1) }
    else moved

-- `__Lexer_Advance_Bytes__`
unfoldable pub advance_bytes : Lexer → ℕ → Lexer
unfolding advance_one has
advance_bytes lexer zero = lexer
advance_bytes lexer (suc count) =
    let rest = advance_bytes (advance_one lexer) count in if has lexer 1 then rest else lexer

-- `__Lexer_Position__`
abbrev pub position : Lexer → SourcePosition
position lexer = record {
  source = lexer.source;
  offset = lexer.offset;
  line = lexer.line;
  column = lexer.column;
}

-- `__Lexer_Fail__`, which answers 0.
abbrev pub fail : Lexer → ErrorId → SourcePosition → WordingKey → Lexer × Option Token
fail lexer id start message_key = (
  record lexer {
    diagnostic = some (record {
      id = id;
      span = record { start = start; end = position lexer };
      message_key = message_key;
    });
    failed = true;
  },
  none,
)

-- `__Token_Payload_Kind_Of__(kind) == expected`
abbrev pub is_payload_kind : PayloadKind → PayloadKind → Bool
is_payload_kind payload_none payload_none = true
is_payload_kind payload_index payload_index = true
is_payload_kind payload_integer payload_integer = true
is_payload_kind payload_text payload_text = true
is_payload_kind payload_character payload_character = true
is_payload_kind payload_boolean payload_boolean = true
is_payload_kind _ _ = false

-- What the functions `__Lexer_Set_Token…__` share: the kind is tested for the payload that it takes, and
-- the header is set.
abbrev pub set_payload :
    PayloadKind → Payload → Lexer → TokenKind → SourcePosition → ℕ → Lexer × Option Token
set_payload expected payload lexer kind start start_offset =
    if is_payload_kind (payload_kind_of kind) expected
    then (
      lexer,
      some (record {
        kind = kind;
        span = record { start = start; end = position lexer };
        lexeme = source_slice lexer.source start_offset lexer.offset;
        payload = payload;
      }),
    )
    else fail lexer internal_context_error start word_e1100

-- `__Lexer_Set_Token__`
abbrev pub set_token : Lexer → TokenKind → SourcePosition → ℕ → Lexer × Option Token
set_token = set_payload payload_none no_payload

-- `__Lexer_Set_Token_Index__`
abbrev pub set_token_index : Lexer → TokenKind → SourcePosition → ℕ → ℕ → Lexer × Option Token
set_token_index lexer kind start start_offset value =
    set_payload payload_index (index_payload value) lexer kind start start_offset

-- `__Lexer_Set_Token_Integer__`
abbrev pub set_token_integer :
    Lexer → TokenKind → SourcePosition → ℕ → IntegerLiteral → Lexer × Option Token
set_token_integer lexer kind start start_offset value =
    set_payload payload_integer (integer_payload value) lexer kind start start_offset

-- `__Lexer_Set_Token_Text__`
abbrev pub set_token_text : Lexer → TokenKind → SourcePosition → ℕ → List ℕ → Lexer × Option Token
set_token_text lexer kind start start_offset value =
    set_payload payload_text (text_payload value) lexer kind start start_offset

-- `__Lexer_Set_Token_Character__`
abbrev pub set_token_character : Lexer → TokenKind → SourcePosition → ℕ → ℕ → Lexer × Option Token
set_token_character lexer kind start start_offset value =
    set_payload payload_character (character_payload value) lexer kind start start_offset

-- `__Lexer_Set_Token_Boolean__`
abbrev pub set_token_boolean : Lexer → TokenKind → SourcePosition → ℕ → Bool → Lexer × Option Token
set_token_boolean lexer kind start start_offset value =
    set_payload payload_boolean (boolean_payload value) lexer kind start start_offset
