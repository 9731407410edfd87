-- ===== src/Trie/Root.antt =====
-- patriciaMerkleTrie.go: Get, Update and Delete at the root. `absent` is the nil root. The depth is
-- bounded by the length of the key in nibbles, since no extension has an empty key.
use elrond_go.Prelude.{suc, Option, none, some, length, if◌then◌else◌}
use elrond_go.Prelude.Bytes.{Bytes}
use elrond_go.Trie.Key.{key_bytes_to_hex}
use elrond_go.Trie.Node.{
  Node, Child, absent, present, Err, Result, ok, err, is_empty, new_leaf_node,
}
use elrond_go.Trie.Ops.Get.{Got, try_get}
use elrond_go.Trie.Ops.Resolve.{Changed}
use elrond_go.Trie.Ops.Insert.{insert}
use elrond_go.Trie.Ops.Delete.{delete}

-- the root afterwards, and the answer
abbrev got_at_root : Got → Child × Result (Option Bytes)
got_at_root (n, r) = (present n, r)

abbrev pub changed_root : Changed → Child × Option Err
changed_root (n, ok (dirty, c)) = (c, none)
changed_root (n, err e) = (present n, some e)

module _ (load : Bytes → Result Node) where
  unfoldable pub get : Child → Bytes → Child × Result (Option Bytes)
  get absent key = (absent, ok none)
  get (present n) key =
      let hex_key = key_bytes_to_hex key in
      got_at_root (try_get load (suc (length hex_key)) n hex_key)

  -- the method Delete of the trie
  unfoldable pub remove : Child → Bytes → Child × Option Err
  remove absent key = (absent, none)
  remove (present n) key =
      let hex_key = key_bytes_to_hex key in
      changed_root (delete load (suc (length hex_key)) n hex_key)

  unfoldable pub put : Child → Bytes → Bytes → Child × Option Err
  unfolding new_leaf_node
  put absent hex_key value = (present (new_leaf_node hex_key value), none)
  put (present n) hex_key value = changed_root (insert load (suc (length hex_key)) n hex_key value)

  -- an empty value removes the key
  unfoldable pub update : Child → Bytes → Bytes → Child × Option Err
  unfolding put
  update root key value =
      if is_empty value then remove root key else put root (key_bytes_to_hex key) value
