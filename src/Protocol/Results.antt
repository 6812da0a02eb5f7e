-- ===== src/Protocol/Results.antt =====
-- The results of requests: `RemoveSocketResponse` of dust-devil-core/src/sandstorm/mod.rs and the
-- responses of users.rs beside it, each one byte on the wire.
use dust_devil.Base.{refl, none, some, ◌==◌, if◌then◌else◌}
use dust_devil.Io.{text}
use dust_devil.Io.Reader.{Reader}
use dust_devil.Io.Writer.{Writer}
use dust_devil.Io.Wire.{Wire}
use dust_devil.Serialize.Numbers.{U8ReprEnum, IsFaithful, write_enum, read_enum}
use dust_devil.Serialize.Numbers.Laws.{Wire-enum}

pub data RemoveSocketResponse : Type 0 where
  ok socket_not_found : RemoveSocketResponse

abbrev pub remove_socket_repr : U8ReprEnum RemoveSocketResponse
remove_socket_repr = record {
  from_u8 = λ v.
      if v == 0
      then some RemoveSocketResponse.ok
      else if v == 1
      then some RemoveSocketResponse.socket_not_found
      else none;
  into_u8 = elim [ RemoveSocketResponse.ok ↦ 0 | RemoveSocketResponse.socket_not_found ↦ 1 ];
}

unfoldable pub write_remove_socket_result : RemoveSocketResponse → Writer
write_remove_socket_result = write_enum remove_socket_repr

unfoldable pub read_remove_socket_result : Reader RemoveSocketResponse
read_remove_socket_result =
    read_enum remove_socket_repr (text "Invalid RemoveSocketResponse type byte")

remove_socket_repr-IsFaithful : IsFaithful remove_socket_repr
remove_socket_repr-IsFaithful RemoveSocketResponse.ok = refl
remove_socket_repr-IsFaithful r = refl

pub Wire-remove_socket_result :
    (r : RemoveSocketResponse) → Wire (write_remove_socket_result r) read_remove_socket_result r
unfolding write_remove_socket_result read_remove_socket_result
Wire-remove_socket_result r = Wire-enum remove_socket_repr _ r (remove_socket_repr-IsFaithful r)

pub data AddUserResponse : Type 0 where
  ok already_exists invalid_values : AddUserResponse

abbrev pub add_user_repr : U8ReprEnum AddUserResponse
add_user_repr = record {
  from_u8 = λ v.
      if v == 0
      then some AddUserResponse.ok
      else if v == 1
      then some AddUserResponse.already_exists
      else if v == 2
      then some AddUserResponse.invalid_values
      else none;
  into_u8 = elim [
    | AddUserResponse.ok ↦ 0
    | AddUserResponse.already_exists ↦ 1
    | AddUserResponse.invalid_values ↦ 2
  ];
}

unfoldable pub write_add_user_result : AddUserResponse → Writer
write_add_user_result = write_enum add_user_repr

unfoldable pub read_add_user_result : Reader AddUserResponse
read_add_user_result = read_enum add_user_repr (text "Invalid AddUserResponse type byte")

add_user_repr-IsFaithful : IsFaithful add_user_repr
add_user_repr-IsFaithful AddUserResponse.ok = refl
add_user_repr-IsFaithful r = refl

pub Wire-add_user_result :
    (r : AddUserResponse) → Wire (write_add_user_result r) read_add_user_result r
unfolding write_add_user_result read_add_user_result
Wire-add_user_result r = Wire-enum add_user_repr _ r (add_user_repr-IsFaithful r)

pub data UpdateUserResponse : Type 0 where
  ok user_not_found cannot_delete_only_admin nothing_was_requested : UpdateUserResponse

abbrev pub update_user_repr : U8ReprEnum UpdateUserResponse
update_user_repr = record {
  from_u8 = λ v.
      if v == 0
      then some UpdateUserResponse.ok
      else if v == 1
      then some UpdateUserResponse.user_not_found
      else if v == 2
      then some UpdateUserResponse.cannot_delete_only_admin
      else if v == 3
      then some UpdateUserResponse.nothing_was_requested
      else none;
  into_u8 = elim [
    | UpdateUserResponse.ok ↦ 0
    | UpdateUserResponse.user_not_found ↦ 1
    | UpdateUserResponse.cannot_delete_only_admin ↦ 2
    | UpdateUserResponse.nothing_was_requested ↦ 3
  ];
}

unfoldable pub write_update_user_result : UpdateUserResponse → Writer
write_update_user_result = write_enum update_user_repr

unfoldable pub read_update_user_result : Reader UpdateUserResponse
read_update_user_result = read_enum update_user_repr (text "Invalid UpdateUserResponse type byte")

update_user_repr-IsFaithful : IsFaithful update_user_repr
update_user_repr-IsFaithful UpdateUserResponse.ok = refl
update_user_repr-IsFaithful r = refl

pub Wire-update_user_result :
    (r : UpdateUserResponse) → Wire (write_update_user_result r) read_update_user_result r
unfolding write_update_user_result read_update_user_result
Wire-update_user_result r = Wire-enum update_user_repr _ r (update_user_repr-IsFaithful r)

pub data DeleteUserResponse : Type 0 where
  ok user_not_found cannot_delete_only_admin : DeleteUserResponse

abbrev pub delete_user_repr : U8ReprEnum DeleteUserResponse
delete_user_repr = record {
  from_u8 = λ v.
      if v == 0
      then some DeleteUserResponse.ok
      else if v == 1
      then some DeleteUserResponse.user_not_found
      else if v == 2
      then some DeleteUserResponse.cannot_delete_only_admin
      else none;
  into_u8 = elim [
    | DeleteUserResponse.ok ↦ 0
    | DeleteUserResponse.user_not_found ↦ 1
    | DeleteUserResponse.cannot_delete_only_admin ↦ 2
  ];
}

unfoldable pub write_delete_user_result : DeleteUserResponse → Writer
write_delete_user_result = write_enum delete_user_repr

unfoldable pub read_delete_user_result : Reader DeleteUserResponse
read_delete_user_result = read_enum delete_user_repr (text "Invalid UpdateUserResponse type byte")

delete_user_repr-IsFaithful : IsFaithful delete_user_repr
delete_user_repr-IsFaithful DeleteUserResponse.ok = refl
delete_user_repr-IsFaithful r = refl

pub Wire-delete_user_result :
    (r : DeleteUserResponse) → Wire (write_delete_user_result r) read_delete_user_result r
unfolding write_delete_user_result read_delete_user_result
Wire-delete_user_result r = Wire-enum delete_user_repr _ r (delete_user_repr-IsFaithful r)
