-- ===== src/Generic/Header.antt =====
-- GenericNetlinkMessage of src/generic.cpp, on the state `Msg` of its `nl_msg`. The functions of libnl
-- are parameters.
use nlcpp.Common.{ℕ, ◌≡◌, Bool, true}
use nlcpp.Common.Int.{ℤ}
use nlcpp.Common.Run.{M, ok, ◌>>=◌, ◌>>◌, pure}

-- The two members of `genlmsghdr` that are read.
pub record GenlHeader : Type 0 where
  pub cmd : ℕ
  pub version : ℕ

-- What the constructor hands to genlmsg_put.
pub record PutHeader : Type 0 where
  pub port : ℕ
  pub seq : ℕ
  pub family : ℤ
  pub hdrlen : ℤ
  pub flags : ℤ
  pub header : GenlHeader

-- `genlmsg_put` says whether there was room for the header; `genl_header` is nlmsg_data of nlmsg_hdr.
pub record GenlCalls (Msg Attrs : Type 0) : Type 0 where
  pub genlmsg_put : PutHeader → Msg → Bool × Msg
  pub genl_header : Msg → GenlHeader
  pub genlmsg_attrdata : Msg → (hdrlen : ℤ) → Attrs
  pub genlmsg_attrlen : Msg → (hdrlen : ℤ) → ℤ

module _ {Msg Attrs : Type 0} (nl : GenlCalls Msg Attrs) where
  -- GenericNetlinkMessage(uint32_t, ...), on the `nl_msg` of a new Message. The result of
  -- genlmsg_put is not looked at.
  unfoldable pub put_header : PutHeader → M Msg (Unit {0})
  put_header h msg = ok tt (nl.genlmsg_put h msg).1

  -- getHeader
  unfoldable pub get_header : M Msg GenlHeader
  get_header msg = ok (nl.genl_header msg) msg

  -- command
  unfoldable pub message_command : M Msg ℕ
  unfolding get_header
  message_command = do header ← get_header; pure header.cmd

  -- version
  unfoldable pub message_version : M Msg ℕ
  unfolding get_header
  message_version = do header ← get_header; pure header.version

  -- getAttrData
  unfoldable pub get_attr_data : (hdrlen : ℤ) → M Msg Attrs
  get_attr_data hdrlen msg = ok (nl.genlmsg_attrdata msg hdrlen) msg

  -- getAttrLen
  unfoldable pub get_attr_len : (hdrlen : ℤ) → M Msg ℤ
  get_attr_len hdrlen msg = ok (nl.genlmsg_attrlen msg hdrlen) msg

  -- Where libnl has room for the header and reads back what it wrote, a new message has the command
  -- and the version that it was made with.
  put_header-command :
      (h : PutHeader) (msg : Msg)
      → ((k : PutHeader) (m : Msg)
          → (nl.genlmsg_put k m).0 ≡ true
          → nl.genl_header (nl.genlmsg_put k m).1 ≡ k.header)
      → (nl.genlmsg_put h msg).0 ≡ true
      → ((put_header h >> message_command) msg ≡ ok h.header.cmd (nl.genlmsg_put h msg).1)
        × ((put_header h >> message_version) msg ≡ ok h.header.version (nl.genlmsg_put h msg).1)
  unfolding put_header message_command message_version
  put_header-command h msg written room = (rw (written h msg room), rw (written h msg room))
