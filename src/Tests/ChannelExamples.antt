-- ===== src/Tests/ChannelExamples.antt =====
-- Membership, messages and deliveries at one agent on the channel #work.
use aircd.Base.{
  ℤ, ◌≡◌, ◌⊎◌, refl, true, false, some, none, [], ◌∷◌, ◌++◌, Str, codes, ok, err, pos,
  if◌then◌else◌, ◌==◌, ◌&&◌, arith, take, select, any, eqb,
}
use aircd.Auth.{Principal}
use aircd.Database.{StoredMessage}
use aircd.History.{after, clamp_limit, wanted, append}
use aircd.World.Returns.{told}
use aircd.World.{World}
use aircd.Server.Members.{has_membership, insert_membership}
use aircd.Server.Positions.{position, newcomer_starts_at_the_end}
use aircd.Server.Chat.{privmsg, join, part}
use aircd.Server.Posting.{
  not_on_channel, id_taken, numbers_left, IsPosted, IsNotPosted, privmsg_decides,
  posted_is_readable,
}
use aircd.Server.Membership.{is_listed, join_adds, part_removes}
use aircd.Tests.Samples.{env}
use aircd.Tests.Running.{running}
use aircd.Tests.SystemExamples.{at_work, start, start-IsLog}

abbrev pub agent_a : Principal
agent_a = record { id = codes "agent-a"; nick = codes "agent-a"; team = none }

abbrev pub work : Str
work = codes "#work"

abbrev idle : Str
idle = codes "#idle"

-- a number that the messages have used up
abbrev full : World
full = record start { db = record start.db { last_message_seq = pos 9223372036854775807 } }

pub on_work : has_membership (codes "agent-a") work start.db ≡ true
unfolding running
on_work = refl

not_on_idle : has_membership (codes "agent-a") idle start.db ≡ false
unfolding running
not_on_idle = refl

abbrev pub next_one : StoredMessage
next_one = record {
  seq = pos 4;
  msg_id = codes "msg_0";
  channel = work;
  sender_id = codes "agent-a";
  body = codes "hi";
  created_at = pos 1000;
}

pub accepted :
    (append work (codes "agent-a") (codes "hi") (env.uuid 0) (env.clock 0) start.db).0 ≡ ok next_one
unfolding running
accepted = refl

posted_is_readable_example :
    after work (pos 1) (pos 50) (privmsg env at_work work (codes "hi") start).1.db
    ≡ take (clamp_limit (pos 50)) (select (wanted work (pos 1)) start.db.messages ++ next_one ∷ [])
posted_is_readable_example =
    posted_is_readable env at_work agent_a work (codes "hi") start start-IsLog refl on_work next_one
      accepted (pos 1) (pos 50) (omega arith)

on_full : has_membership (codes "agent-a") work full.db ≡ true
unfolding running
on_full = refl

used_up :
    (append work (codes "agent-a") (codes "hi") (env.uuid 0) (env.clock 0) full.db).0
    ≡ err (codes "insert message")
unfolding running
used_up = refl

join_adds_example :
    (w' : World) × (join env at_work idle start ≡ (ok tt, w'))
    × ((other room : Str)
        → (has_membership other room w'.db ≡ (
            if other == codes "agent-a" && room == idle
            then true
            else has_membership other room start.db))
          × (is_listed other room w'.inner ≡ (
              if other == codes "agent-a" && room == idle
              then true
              else is_listed other room start.inner)))
join_adds_example = join_adds env at_work agent_a idle start refl

part_removes_example :
    (w' : World) × (part at_work work start ≡ (ok tt, w'))
    × ((other room : Str)
        → (has_membership other room w'.db ≡ (
            if other == codes "agent-a" && room == work
            then false
            else has_membership other room start.db))
          × (is_listed other room w'.inner ≡ (
              if other == codes "agent-a" && room == work
              then false
              else is_listed other room start.inner)))
part_removes_example = part_removes env at_work agent_a work start refl

new_to_idle : position (codes "agent-a") idle start.db ≡ none
unfolding running
new_to_idle = refl

newcomer_starts_at_the_end_example :
    (seq : ℤ) × (position
        (codes "agent-a")
        idle
        (insert_membership (codes "agent-a") idle (pos 5) start.db)
      ≡ some seq)
    × ((limit : ℤ)
        → after idle seq limit (insert_membership (codes "agent-a") idle (pos 5) start.db) ≡ [])
newcomer_starts_at_the_end_example =
    newcomer_starts_at_the_end (codes "agent-a") idle (pos 5) start.db new_to_idle

worker_listens : any (eqb at_work.tx) start.closed ≡ false
worker_listens = refl

privmsg_decides_example :
    ((has_membership (codes "agent-a") work start.db ≡ false)
      × (privmsg env at_work work (codes "hi") start ≡ (
        ok tt,
        told at_work (not_on_channel env at_work agent_a work (codes "hi") start) start,
      )))
    ⊎ (((has_membership (codes "agent-a") work start.db ≡ true)
          × ((id_taken env at_work agent_a work (codes "hi") start ≡ false)
              × (numbers_left env at_work agent_a work (codes "hi") start ≡ true))
          × IsPosted env at_work agent_a work (codes "hi") start)
        ⊎ ((has_membership (codes "agent-a") work start.db ≡ true)
            × ((id_taken env at_work agent_a work (codes "hi") start ≡ true)
                ⊎ (numbers_left env at_work agent_a work (codes "hi") start ≡ false))
            × IsNotPosted env at_work agent_a work (codes "hi") start))
privmsg_decides_example = privmsg_decides env at_work agent_a work (codes "hi") start refl
