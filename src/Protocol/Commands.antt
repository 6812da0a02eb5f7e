-- ===== src/Protocol/Commands.antt =====
-- The command types of dust-devil-core/src/sandstorm/mod.rs, and the small enums that answers hold.
use dust_devil.Base.{ℕ, refl, Option, none, some, ◌==◌, if◌then◌else◌}
use dust_devil.Io.{text}
use dust_devil.Io.Reader.{Reader}
use dust_devil.Io.Writer.{Writer}
use dust_devil.Io.Wire.{Wire}
use dust_devil.Serialize.Numbers.{U8ReprEnum, IsFaithful, write_enum, read_enum}
use dust_devil.Serialize.Numbers.Laws.{Wire-enum}

pub data SandstormCommandType : Type 0 where
  shutdown : SandstormCommandType
  event_stream_config : SandstormCommandType
  event_stream : SandstormCommandType
  list_socks5_sockets : SandstormCommandType
  add_socks5_socket : SandstormCommandType
  remove_socks5_socket : SandstormCommandType
  list_sandstorm_sockets : SandstormCommandType
  add_sandstorm_socket : SandstormCommandType
  remove_sandstorm_socket : SandstormCommandType
  list_users : SandstormCommandType
  add_user : SandstormCommandType
  update_user : SandstormCommandType
  delete_user : SandstormCommandType
  list_auth_methods : SandstormCommandType
  toggle_auth_method : SandstormCommandType
  request_current_metrics : SandstormCommandType
  get_buffer_size : SandstormCommandType
  set_buffer_size : SandstormCommandType
  meow : SandstormCommandType

unfoldable pub command_of_u8 : ℕ → Option SandstormCommandType
command_of_u8 v =
    if v == 0x00
    then some shutdown
    else if v == 0x01
    then some event_stream_config
    else if v == 0x02
    then some event_stream
    else if v == 0x03
    then some list_socks5_sockets
    else if v == 0x04
    then some add_socks5_socket
    else if v == 0x05
    then some remove_socks5_socket
    else if v == 0x06
    then some list_sandstorm_sockets
    else if v == 0x07
    then some add_sandstorm_socket
    else if v == 0x08
    then some remove_sandstorm_socket
    else if v == 0x09
    then some list_users
    else if v == 0x0a
    then some add_user
    else if v == 0x0b
    then some update_user
    else if v == 0x0c
    then some delete_user
    else if v == 0x0d
    then some list_auth_methods
    else if v == 0x0e
    then some toggle_auth_method
    else if v == 0x0f
    then some request_current_metrics
    else if v == 0x10
    then some get_buffer_size
    else if v == 0x11
    then some set_buffer_size
    else if v == 0xff
    then some meow
    else none

unfoldable pub command_to_u8 : SandstormCommandType → ℕ
command_to_u8 shutdown = 0x00
command_to_u8 event_stream_config = 0x01
command_to_u8 event_stream = 0x02
command_to_u8 list_socks5_sockets = 0x03
command_to_u8 add_socks5_socket = 0x04
command_to_u8 remove_socks5_socket = 0x05
command_to_u8 list_sandstorm_sockets = 0x06
command_to_u8 add_sandstorm_socket = 0x07
command_to_u8 remove_sandstorm_socket = 0x08
command_to_u8 list_users = 0x09
command_to_u8 add_user = 0x0a
command_to_u8 update_user = 0x0b
command_to_u8 delete_user = 0x0c
command_to_u8 list_auth_methods = 0x0d
command_to_u8 toggle_auth_method = 0x0e
command_to_u8 request_current_metrics = 0x0f
command_to_u8 get_buffer_size = 0x10
command_to_u8 set_buffer_size = 0x11
command_to_u8 meow = 0xff

unfoldable pub command_repr : U8ReprEnum SandstormCommandType
unfolding command_of_u8 command_to_u8
command_repr = record { from_u8 = command_of_u8; into_u8 = command_to_u8 }

unfoldable pub write_command : SandstormCommandType → Writer
write_command = write_enum command_repr

unfoldable pub read_command : Reader SandstormCommandType
read_command = read_enum command_repr (text "Invalid SandstormCommandType type byte")

command_repr-IsFaithful : IsFaithful command_repr
unfolding command_repr
command_repr-IsFaithful shutdown = refl
command_repr-IsFaithful c = refl

pub Wire-command : (c : SandstormCommandType) → Wire (write_command c) read_command c
unfolding write_command read_command
Wire-command c = Wire-enum command_repr _ c (command_repr-IsFaithful c)
