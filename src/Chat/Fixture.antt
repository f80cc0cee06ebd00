-- ===== src/Chat/Fixture.antt =====
-- A concrete runtime, clients and rooms for the examples: encoding is as simple as can be, the clock
-- goes on by a second at each reading, and every write to a connection succeeds.
use hzchat_server.Common.{◌*◌, refl, true, false, [], ◌∷◌, ◌++◌, some, if◌then◌else◌, ◌==◌}
use hzchat_server.Common.Int.{pos}
use hzchat_server.Text.{Bytes, bytes}
use hzchat_server.Jwt.{second}
use hzchat_server.Chat.Attachment.{Attachment}
use hzchat_server.Chat.Message.{
  User, Payload, Message, text, init_data, user_event, error, token_update, attachments, confirm,
  type_text, AttachmentsPayload,
}
use hzchat_server.Chat.World.{World, Runtime}
use hzchat_server.Chat.Channel.{make}
use hzchat_server.Chat.Client.Sending.{new_client}
use hzchat_server.Chat.Room.Handlers.{new_room}
use hzchat_server.Chat.Keeps.{Marshals}

abbrev pub marshal_payload : Payload → Bytes
marshal_payload (text content) = content
marshal_payload (token_update token) = token
marshal_payload (error code message) = message
marshal_payload (user_event user) = user.nickname
marshal_payload (confirm temp_id id timestamp) = temp_id
marshal_payload (init_data payload) = []
marshal_payload (attachments payload) = payload.description

abbrev pub marshal_message : Message → Bytes
marshal_message m = m.type ++ m.payload

abbrev pub photo : Attachment
photo = record {
  key = bytes "abc123/cat";
  name = bytes "cat.PNG";
  mime_type = bytes "image/png";
  size = pos 1000;
  meta = some (bytes "{}");
}

abbrev pub photos : AttachmentsPayload
photos = record { description = bytes "my cat"; attachments = photo ∷ [] }

abbrev pub runtime : Runtime
runtime = record {
  marshal_payload = λ x. some (marshal_payload x);
  marshal_message = λ m. some (marshal_message m);
  unmarshal_inbound = λ b. some (record { type = type_text; payload = b; temp_id = [] });
  unmarshal_text = λ b. some b;
  unmarshal_attachments = λ b. some photos;
  new_uuid = λ n. n ∷ [];
  now = λ n. n * second;
  lower_table = λ r. r;
  format_close_message = λ code reason. code ∷ reason;
  set_write_deadline = λ p c. true;
  write_message = λ p c f. true;
  sign = λ claims secret. some (claims.id ++ secret);
}

abbrev pub marshals : Marshals runtime
marshals = record {
  payload_json = marshal_payload;
  message_json = marshal_message;
  marshal_payload_eq = λ x. refl;
  marshal_message_eq = λ m. refl;
}

abbrev pub ann : User
ann = record {
  id = bytes "ann";
  nickname = bytes "Ann";
  avatar = [];
  user_type = bytes "registered";
}

abbrev pub bob : User
bob = record { id = bytes "bob"; nickname = bytes "Bob"; avatar = []; user_type = bytes "guest" }

-- A private room; the pointer 1 is Ann's client, every other one is Bob's.
abbrev pub empty_world : World
empty_world = record {
  room = new_room (bytes "abc123") 2 (bytes "secret");
  store = λ p. if p == 1 then new_client ann (900 * second) else new_client bob (900 * second);
  cleanup = make 10;
  clock_reads = 0;
  ids_drawn = 0;
}

-- Ann is in the room.
abbrev pub world_of_ann : World
world_of_ann = record empty_world {
  room = record empty_world.room { clients = (bytes "ann", 1) ∷ []; timer_running = false };
}
