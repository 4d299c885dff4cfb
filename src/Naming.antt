-- ===== src/Naming.antt =====
-- wxf/naming: service registrations, and the registry client of wxf/naming/consul.
pub mod Consul
use wxf_im.Prelude.{
  ℕ, Bool, false, ◌+◌, ◌/◌, List, [], ◌∷◌, ◌++◌, if◌then◌else◌, Bytes, lit, bytes_eq, decimal,
}
use wxf_im.Prelude.Assoc.{Assoc}

-- DefaultService; `has_meta` says whether Meta is a map at all, or nil.
pub record Registration : Type 0 where
  pub id : Bytes
  pub name : Bytes
  pub address : Bytes
  pub port : ℕ
  pub protocol : Bytes
  pub namespace : Bytes
  pub tags : List Bytes
  pub has_meta : Bool
  pub meta : Assoc Bytes

-- DialURL()
unfoldable pub dial_url : Registration → Bytes
dial_url s =
    if bytes_eq s.protocol (lit "tcp")
    then s.address ++ (b':' ∷ decimal s.port)
    else s.protocol ++ (lit "://" ++ (s.address ++ (b':' ∷ decimal s.port)))

-- NewEntry(id, name, protocol, address, port)
unfoldable pub new_entry : Bytes → Bytes → Bytes → Bytes → ℕ → Registration
new_entry id name protocol address port = record {
  id = id;
  name = name;
  address = address;
  port = port;
  protocol = protocol;
  namespace = [];
  tags = [];
  has_meta = false;
  meta = [];
}
