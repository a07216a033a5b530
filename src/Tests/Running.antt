-- ===== src/Tests/Running.antt =====
-- `running` opens every function of the model, for the tests that run whole connections.
use aircd.Base.{select, find, update_where, insert_by, sort_by}
use aircd.Base.{codes, same, Str-discrete, text_lt}
use aircd.Base.{◌+ℤ◌, add_i64}
use aircd.Strings
use aircd.Strings.Numbers
use aircd.Maps
use aircd.Tags
use aircd.Tokens
use aircd.Auth
use aircd.History
use aircd.Tasks
use aircd.Protocol
use aircd.World
use aircd.Server.Members
use aircd.Server.Delivery
use aircd.Server.Chat
use aircd.Server.TaskCommands
use aircd.Server.Registration
use aircd.Server.Connection

unfoldable pub running : Unit {0}
unfolding select find update_where insert_by sort_by codes same Str-discrete text_lt ◌+ℤ◌ add_i64
    Strings.is_whitespace Strings.ascii_upper Strings.to_ascii_uppercase
    Strings.eq_ignore_ascii_case Strings.strip_prefix Strings.starts_with Strings.split_once
    Strings.trim_start Strings.trim_end Strings.trim Strings.first_word Strings.split_whitespace
    Strings.join Strings.concat Numbers.read_digits Numbers.read_magnitude Numbers.parse_i64
    Numbers.digits Numbers.show_ℕ Numbers.show_i64 Maps.lookup Maps.insert Maps.remove
    Maps.insert_member Maps.remove_member Tags.channel_name Tags.normalize_channel Tags.escape_char
    Tags.escape_tag_value Tags.format_tag Tags.format_message_tags Tags.metadata_tags
    Tags.task_failure_tags Tokens.hex_digit Tokens.hex_encode Tokens.generate Tokens.both_present
    Tokens.split_body Tokens.parse Auth.find_token Auth.authenticate_new Auth.authenticate_legacy
    Auth.legacy_path Auth.authenticate History.can_insert History.append History.clamp_limit
    History.after Tasks.get_locked Tasks.create Tasks.execute_update Tasks.can_be_claimed
    Tasks.claim Tasks.is_held_by Tasks.done Tasks.release Tasks.list Protocol.behind_space
    Protocol.strip_tags_and_prefix Protocol.split_trailing Protocol.parse_or
    Protocol.parse_chathistory Protocol.task_command Protocol.parse_task Protocol.dispatch
    Protocol.parse_parts Protocol.parse_command World.pure World.lift World.gets World.on_db
    World.◌>>=◌ World.modify World.attempt World.unix_timestamp World.new_v4 World.send World.say
    World.session_principal Members.memberships_of Members.memberships Members.set_connected
    Members.mark_connected_and_memberships Members.max_seq Members.current_channel_seq
    Members.insert_membership Members.add_membership Members.delete_membership
    Members.remove_membership Members.has_membership Members.is_member Members.display_name_in
    Members.display_name Members.raise_seen Members.mark_seen Delivery.connected
    Delivery.recipients_with_ids Delivery.recipients Delivery.send_each Delivery.broadcast_raw
    Delivery.seen_if Delivery.deliver_each Delivery.broadcast_message Chat.cap_reply Chat.say_if
    Chat.cap Chat.enter_channel Chat.leave_channel Chat.join Chat.part Chat.append_message Chat.post
    Chat.privmsg Chat.replay_messages Chat.seen_if_more Chat.replay_channel Chat.replay_channels
    Chat.replay_history TaskCommands.event_tags TaskCommands.broadcast_task_event
    TaskCommands.created_task TaskCommands.create_titled TaskCommands.task_create
    TaskCommands.report TaskCommands.task_claim TaskCommands.task_done TaskCommands.task_release
    TaskCommands.say_tasks TaskCommands.list_or_notice TaskCommands.task_list Registration.shut_down
    Registration.enter_channels Registration.attach Registration.say_joins Registration.replay_each
    Registration.replay_missed Registration.enter_server Registration.admit
    Registration.authenticate_session Registration.try_register Registration.active_or_error
    Registration.ensure_active Registration.refuse Registration.ensure_registered
    Registration.set_disconnected Registration.mark_disconnected Registration.disconnect_if
    Registration.disconnect Connection.lease_from_env Connection.if_registered Connection.guarded
    Connection.channels_to_replay Connection.replay_requested Connection.serve_command
    Connection.handle_command Connection.leave Connection.on_input Connection.rounds
    Connection.handle_stream
running = tt
