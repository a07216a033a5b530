-- ===== src/Tests/ReadingLines.antt =====
-- The tests of clients/python/tests/test_protocol.py, run on the model of the client's parser.
use aircd.Base.{◌≡◌, refl, some, none, [], ◌∷◌, codes}
use aircd.Tags.Escaping
use aircd.Client
use aircd.Client.{
  IrcLine, is_space, split, split_at, read_tags, read_command, read_prefix, parse_irc_line,
  extract_nick,
}
use aircd.Tests.Running.{running}
use aircd.Tests.AgentExamples.{ascii}

unfoldable reading : Unit {0}
unfolding running Escaping.unescape_tag_value is_space Client.first_piece split split_at read_tags
    read_command read_prefix parse_irc_line
reading = tt

parse_prefixed_privmsg :
    parse_irc_line ascii (codes ":nick!user@host PRIVMSG #channel :hello world")
    ≡ some (record {
      prefix = codes "nick!user@host";
      command = codes "PRIVMSG";
      params = codes "#channel" ∷ codes "hello world" ∷ [];
      tags = [];
    })
unfolding reading
parse_prefixed_privmsg = refl

parse_cap_reply :
    parse_irc_line ascii (codes ":aircd CAP * ACK :message-tags")
    ≡ some (record {
      prefix = codes "aircd";
      command = codes "CAP";
      params = codes "*" ∷ codes "ACK" ∷ codes "message-tags" ∷ [];
      tags = [];
    })
unfolding reading
parse_cap_reply = refl

parse_no_trailing :
    parse_irc_line ascii (codes "NICK agent-1")
    ≡ some
        (record { prefix = []; command = codes "NICK"; params = codes "agent-1" ∷ []; tags = [] })
unfolding reading
parse_no_trailing = refl

parse_tags_boolean_flag :
    parse_irc_line ascii (codes "@seq=5;batch :nick!u@h PRIVMSG #ch :batched")
    ≡ some (record {
      prefix = codes "nick!u@h";
      command = codes "PRIVMSG";
      params = codes "#ch" ∷ codes "batched" ∷ [];
      tags = (codes "seq", codes "5") ∷ (codes "batch", []) ∷ [];
    })
unfolding reading
parse_tags_boolean_flag = refl

parse_tags_unescapes_ircv3_values :
    parse_irc_line ascii (codes "@note=hello\\sworld\\:ok\\\\done :nick PRIVMSG #ch :escaped")
    ≡ some (record {
      prefix = codes "nick";
      command = codes "PRIVMSG";
      params = codes "#ch" ∷ codes "escaped" ∷ [];
      tags = (codes "note", codes "hello world;ok\\done") ∷ [];
    })
unfolding reading
parse_tags_unescapes_ircv3_values = refl

-- a line of tags alone raises ValueError
tags_alone_raise : parse_irc_line ascii (codes "@seq=5") ≡ none
unfolding reading
tags_alone_raise = refl

extract_nick_full : extract_nick (codes "nick!user@host") ≡ codes "nick"
unfolding running extract_nick
extract_nick_full = refl
