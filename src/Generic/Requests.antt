-- ===== src/Generic/Requests.antt =====
-- The requests that Ctrl of src/ctrl.cpp and Nl80211 of src/nl80211.cpp make and send: the message as a
-- local object, its header and attributes, and the call that waits for the answers. The functions of libnl
-- and the numbers of linux/genetlink.h and linux/nl80211.h are parameters.
pub mod Sending
pub mod Sent
pub mod Families
pub mod Interfaces
pub mod Resolved
use Prim.Native.String.{String}
use nlcpp.Common.{ℕ, Option, none, some, List, ◌==◌, if◌then◌else◌}
use nlcpp.Common.Int.{ℤ, pos}
use nlcpp.Common.Run.{Run, M, ok, throws, fault, undefined, throw, pure, ◌>>=◌, ◌>>◌, attempt}
use nlcpp.Exception.{Errno}
use nlcpp.Objects.Defs.{Ptr, Libnl, World, member}
use nlcpp.Message.{message_make, message_destroy}
use nlcpp.Message.Put.{Nla, put_string, put_u32}
use nlcpp.Netlink.Socket.{Event, Socket}
use nlcpp.Netlink.Socket.Calls.{NlCalls, resolve}
use nlcpp.Generic.Attributes.{NlAttr}
use nlcpp.Generic.Header.{PutHeader, GenlCalls, put_header}
use nlcpp.Generic.Ctrl.{GenericFamily, CtrlAttr, get_family, get_families}
use nlcpp.Generic.Nl80211.{InterfaceConfiguration, Nl80211Attr, get_interface, get_interfaces}

-- The functions on an `nl_msg`, by its pointer.
pub record Wire (l : Libnl) (Attrs Addr Nested : Type 0) : Type 0 where
  pub genl : (msg : ℕ) → GenlCalls l.Store Attrs
  pub nla : (msg : ℕ) → Nla l.Store Addr Nested
  pub nl_send_auto : (msg : ℕ) → l.Store → ℤ × l.Store

pub record RequestNumbers : Type 0 where
  pub genl_id_ctrl : ℤ
  pub ctrl_cmd_getfamily : ℕ
  pub nl80211_cmd_get_interface : ℕ
  pub nlm_f_dump : ℤ

-- The header that the requests have in common: `(0, 0, family, 0, flags, cmd, 0)`.
abbrev pub header_of : (family flags : ℤ) → (cmd : ℕ) → PutHeader
header_of family flags cmd = record {
  port = 0;
  seq = 0;
  family = family;
  hdrlen = pos 0;
  flags = flags;
  header = record { cmd = cmd; version = 0 };
}

module _ {l : Libnl} where
  abbrev pub lift_store {ℓ} : {A : Type ℓ} → World l → Run l.Store A → Run (World l) A
  lift_store w (ok a s) = ok a (record w { store = s })
  lift_store w (throws x s) = throws x (record w { store = s })
  lift_store w fault = fault

  -- A function of libnl on the message of a pointer.
  unfoldable pub on_pointer {ℓ} : {A : Type ℓ} → (ℕ → M l.Store A) → Ptr → M (World l) A
  on_pointer f none = undefined
  on_pointer f (some p) = λ w. if l.refs w.store p == 0 then fault else lift_store w (f p w.store)

  -- The same on the message of the object at `this`.
  unfoldable pub on_message {ℓ} : {A : Type ℓ} → (ℕ → M l.Store A) → (this : ℕ) → M (World l) A
  unfolding member on_pointer
  on_message f this = do msg ← member this; on_pointer f msg

  -- What follows a call with a local message; `none` is a call that is still waiting.
  unfoldable pub leave {ℓ} : {A : Type ℓ} → (this : ℕ) → Option A → M (World l) (Option A)
  unfolding message_destroy
  leave this none = pure none
  leave this (some a) = do message_destroy this; pure (some a)

  -- The rest of a function with a local message, which is destroyed at its end, also by an exception.
  unfoldable pub scoped {ℓ} :
      {A : Type ℓ} → (this : ℕ) → M (World l) (Option A) → M (World l) (Option A)
  unfolding leave message_destroy
  scoped this body w = attempt (body w) (leave this) (λ x. message_destroy this >> throw x)

module _ {l : Libnl} {Attrs Addr Nested : Type 0} (e : Errno)
    (wire : Wire l Attrs Addr Nested) where
  -- GenericNetlinkMessage(uint32_t, ...): a Message, and its header
  unfoldable pub generic_message_make : PutHeader → M (World l) ℕ
  unfolding message_make on_message put_header
  generic_message_make h = do
    this ← message_make
    on_message (λ p. put_header (wire.genl p) h) this
    pure this

  -- `nl_send_auto(sock, message.get());`, at the start of sendMessageSync, which does not look at the result
  unfoldable pub send : (this : ℕ) → M (World l) (Unit {0})
  unfolding on_message
  send this = on_message (λ p s. ok tt (wire.nl_send_auto p s).1) this

  module _ {Attr E : Type 0} (a : NlAttr Attrs Attr) (n : RequestNumbers) (eproto : ℕ)
      (batches : List (List (Event Attrs))) where
    -- Ctrl::getFamily, which sends its request and then waits
    unfoldable pub request_family :
        CtrlAttr
        → (name : String) → Socket Attrs (Option GenericFamily × E)
        → M (World l) (Option (Socket Attrs (Option GenericFamily × E)))
    unfolding generic_message_make scoped put_string on_message send get_family
    request_family k name sock = do
      msg ← generic_message_make (header_of n.genl_id_ctrl (pos 0) n.ctrl_cmd_getfamily)
      scoped msg (do
        on_message (λ p. put_string e (wire.nla p) (pos k.family_name) name) msg
        send msg
        pure (get_family a k eproto batches sock))

    -- Ctrl::getFamilies
    unfoldable pub request_families :
        CtrlAttr
        → Socket Attrs (List GenericFamily × E)
        → M (World l) (Option (Socket Attrs (List GenericFamily × E)))
    unfolding generic_message_make scoped send get_families
    request_families k sock = do
      msg ← generic_message_make (header_of n.genl_id_ctrl n.nlm_f_dump n.ctrl_cmd_getfamily)
      scoped msg (do send msg; pure (get_families a k eproto batches sock))

    -- Nl80211::getInterface, with the member `family`
    unfoldable pub request_interface :
        Nl80211Attr
        → (family : ℤ) → (ifindex : ℕ) → Socket Attrs (Option InterfaceConfiguration × E)
        → M (World l) (Option (Socket Attrs (Option InterfaceConfiguration × E)))
    unfolding generic_message_make scoped put_u32 on_message send get_interface
    request_interface k family ifindex sock = do
      msg ← generic_message_make (header_of family (pos 0) n.nl80211_cmd_get_interface)
      scoped msg (do
        on_message (λ p. put_u32 e (wire.nla p) (pos k.attr_ifindex) ifindex) msg
        send msg
        pure (get_interface a k eproto batches sock))

    -- Nl80211::getInterfaces
    unfoldable pub request_interfaces :
        Nl80211Attr
        → (family : ℤ) → Socket Attrs (List InterfaceConfiguration × E)
        → M (World l) (Option (Socket Attrs (List InterfaceConfiguration × E)))
    unfolding generic_message_make scoped send get_interfaces
    request_interfaces k family sock = do
      msg ← generic_message_make (header_of family n.nlm_f_dump n.nl80211_cmd_get_interface)
      scoped msg (do send msg; pure (get_interfaces a k eproto batches sock))

-- Nl80211(GenericSocket &), which nl80211() makes: the member `family`
unfoldable pub nl80211_make : {l : Libnl} → Errno → NlCalls l.Store → String → M (World l) ℤ
unfolding resolve
nl80211_make e nl nl80211_family_name w = lift_store w (resolve e nl nl80211_family_name w.store)
