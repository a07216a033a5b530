-- ===== src/Client/Talking.antt =====
-- A message from one agent's client to another's: `send` and `_reader_loop` of
-- clients/python/aircd/client.py, and PRIVMSG of src/server.rs between them.
use aircd.World.{World}
use aircd.Client.{Client}
