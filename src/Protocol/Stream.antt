-- ===== src/Protocol/Stream.antt =====
-- The stream between clients/python/aircd/client.py and the reader of lines of src/server.rs.
use aircd.Base.{◌≡◌, ap, ◌∙◌, List, [], ◌∷◌, ◌++◌, append_assoc, append-nil, map, Str, All, sym}
use aircd.Strings.Pieces.{Lacks}
use aircd.Protocol.{parse_command}
use aircd.Protocol.Client.{Request, request_line, carriage_return, line_feed, wire, written, meant}
use aircd.Protocol.Understood.{IsSendable, parse_command-request_line}

-- tokio's `lines` on a whole stream, by its documentation: a line ends at a line feed, and a carriage
-- return in front of the line feed is taken off.
pub record IsLineReader (lines : Str → List Str) : Type 0 where
  pub at_end : lines [] ≡ []
  pub next_line :
      (line rest : Str)
      → Lacks line_feed line
      → lines (line ++ carriage_return ∷ line_feed ∷ rest) ≡ line ∷ lines rest

-- The request is written as one line.
abbrev pub IsOneLine : Request → Type 0
IsOneLine r = Lacks line_feed (request_line r)

module _ (lines : Str → List Str) (reader : IsLineReader lines) where
  lines-wire :
      (line rest : Str) → Lacks line_feed line → lines (wire line ++ rest) ≡ line ∷ lines rest
  unfolding wire
  lines-wire line rest h =
      ap lines (append_assoc line (carriage_return ∷ line_feed ∷ []) rest)
      ∙ reader.next_line line rest h

  pub one_line : (line : Str) → Lacks line_feed line → lines (wire line) ≡ line ∷ []
  one_line line h =
      ap lines (sym (append-nil (wire line)))
      ∙ lines-wire line [] h
      ∙ ap (λ ls. line ∷ ls) reader.at_end

  -- The server understands the client: from the stream that the client writes for any requests, the
  -- server reads the commands that the requests mean, one for each, in their order. Names and ids are
  -- words, texts do not end in white space, no line that is written has a line feed in it (the client
  -- does not escape one: the server would read two lines), and numbers are in the range of `i64`.
  pub requests_are_understood :
      (rs : List Request)
      → All IsSendable rs
      → All IsOneLine rs
      → map parse_command (lines (written rs)) ≡ map meant rs
  unfolding written
  requests_are_understood [] h k = ap (map parse_command) reader.at_end
  requests_are_understood (r ∷ rs) (h, hs) (k, ks) =
      ap (map parse_command) (lines-wire (request_line r) (written rs) k)
      ∙ ap (λ c. c ∷ map parse_command (lines (written rs))) (parse_command-request_line r h)
      ∙ ap (λ cs. meant r ∷ cs) (requests_are_understood rs hs ks)
