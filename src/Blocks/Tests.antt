-- ===== src/Blocks/Tests.antt =====
-- Headers, bodies and blocks of a small chain: the theorems at concrete inputs.
mod Bodies
pub mod Processing
mod Committing
mod Creating
use elrond_go.Prelude.{
  ℕ, ◌≡◌, refl, ◌+◌, ◌≤◌, true, false, none, some, List, [], ◌∷◌, arith, ◌==◌, length,
}
use elrond_go.Prelude.Bytes.{Bytes, bytes_eq}
use elrond_go.Prelude.Maps.{Distinct, lookup, insert, has_key}
use elrond_go.Blocks.Types.{
  shard_content, meta_content, Header, metachain_shard_id, is_shard_content, Codec, calculate_hash,
  header_hash, unless_error,
}
use elrond_go.Blocks.Validity.{
  check_link, check_follows, is_hdr_construction_valid, check_type, check_header_type_correct,
}
use elrond_go.Blocks.Notarized.{
  HeaderLists, headers_of, slice_of, last_of, last_notarized_hdr_for_shard, add_last_notarized_hdr,
  insert_by_nonce, sort_by_nonce, check_each, check_from, save_checked, save_last_notarized_header,
  remove_last_notarized,
}
use elrond_go.Blocks.Chained.{Chained, save_last_notarized_header-Chained}
use elrond_go.Blocks.Rollback.{remove_last_notarized-save_last_notarized_header}
use elrond_go.Blocks.Finality.{is_meta_header_final, Attested, is_meta_header_final-Attested}

-- a header is marshalled as its nonce and its round, and the hash of bytes are the bytes
abbrev pub one_by_one : Bytes → Bytes → Bytes
one_by_one [] rest = 0 ∷ rest
one_by_one (x ∷ xs) rest = 1 ∷ x ∷ one_by_one xs rest

abbrev pub bytes_of_list : List Bytes → Bytes → Bytes
bytes_of_list [] rest = 0 ∷ rest
bytes_of_list (b ∷ bs) rest = 1 ∷ one_by_one b (bytes_of_list bs rest)

abbrev pub codec : Codec
codec = record {
  marshal_header = λ h. some (h.nonce ∷ h.round ∷ []);
  marshal_mini_block = λ mb.
      some (mb.receiver_shard_id ∷ mb.sender_shard_id ∷ mb.kind ∷ bytes_of_list mb.tx_hashes []);
  compute = λ b. b;
}

-- the meta header of a nonce, in the round four later
abbrev pub meta_at : ℕ → Header
meta_at n = record {
  nonce = n + 1;
  round = n + 5;
  epoch = 0;
  prev_hash = n ∷ (n + 4) ∷ [];
  prev_rand_seed = [];
  rand_seed = [];
  root_hash = some (7 ∷ []);
  validator_stats_root_hash = [];
  content = meta_content [] [];
}

abbrev pub shard_start : Header
shard_start = record (meta_at 0) { content = shard_content 0 [] [] }

abbrev pub notarized : HeaderLists
notarized =
    (0, shard_start ∷ []) ∷ (1, shard_start ∷ []) ∷ (metachain_shard_id, meta_at 4 ∷ []) ∷ []

abbrev later_metas : List Header
later_metas = meta_at 6 ∷ meta_at 5 ∷ []

abbrev saved : HeaderLists
saved =
    (0, shard_start ∷ [])
    ∷ (1, shard_start ∷ [])
    ∷ (metachain_shard_id, meta_at 4 ∷ meta_at 6 ∷ [])
    ∷ []

notarized-saved :
    save_last_notarized_header codec 2 metachain_shard_id later_metas notarized ≡ (saved, none)
unfolding save_last_notarized_header save_checked last_notarized_hdr_for_shard headers_of slice_of
    last_of lookup check_header_type_correct check_type is_shard_content unless_error check_from
    sort_by_nonce insert_by_nonce check_each is_hdr_construction_valid check_follows check_link
    header_hash calculate_hash bytes_eq add_last_notarized_hdr insert
notarized-saved = refl

last-notarized : last_notarized_hdr_for_shard metachain_shard_id notarized ≡ some (meta_at 4)
unfolding last_notarized_hdr_for_shard headers_of slice_of last_of lookup
last-notarized = refl

save_last_notarized_header-Chained_example :
    (l : Header) × Chained codec (meta_at 4) (sort_by_nonce later_metas) l
    × (last_notarized_hdr_for_shard metachain_shard_id saved ≡ some l)
    × (l.nonce ≡ 5 + 2)
    × ((j : ℕ) → (metachain_shard_id == j) ≡ false → headers_of j saved ≡ headers_of j notarized)
save_last_notarized_header-Chained_example =
    save_last_notarized_header-Chained codec 2 metachain_shard_id later_metas notarized saved
      (meta_at 4) (7 ∷ []) (omega arith) refl last-notarized notarized-saved

notarized-Distinct : Distinct notarized
unfolding has_key
notarized-Distinct = (refl, (refl, (refl, tt)))

notarized_short : (j : ℕ) → (metachain_shard_id == j) ≡ false → length (headers_of j notarized) ≤ 1
unfolding headers_of lookup slice_of
notarized_short j e = ground arith

remove_last_notarized-save_last_notarized_header_example :
    headers_of metachain_shard_id (remove_last_notarized saved)
    ≡ headers_of metachain_shard_id notarized
remove_last_notarized-save_last_notarized_header_example =
    remove_last_notarized-save_last_notarized_header codec 2 metachain_shard_id later_metas
      notarized saved notarized-Distinct notarized_short notarized-saved metachain_shard_id

is_meta_header_final-Attested_example :
    (is_meta_header_final codec 1 (some (meta_at 4)) later_metas ≡ true
      → Attested codec 1 (meta_at 4) later_metas)
    × (Attested codec 1 (meta_at 4) later_metas
        → is_meta_header_final codec 1 (some (meta_at 4)) later_metas ≡ true)
is_meta_header_final-Attested_example =
    is_meta_header_final-Attested codec 1 (meta_at 4) later_metas
