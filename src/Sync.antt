-- ===== src/Sync.antt =====
-- ndn-svs/svsync-base.{hpp,cpp}, svsync.hpp, svsync-shared.hpp and store.hpp: `class SVSyncBase`, which
-- publishes and fetches Data packets by the sequence numbers of the core. `X` is the content of a
-- packet; a signature is no part of it. `T` tells what a fetched packet is for: the callback.
pub mod Naming
pub mod Serving
mod Tests
use m_svs.Base.{
  ℕ, suc, ◌+◌, ◌%◌, ◌^◌, Bool, true, false, List, [], ◌∷◌, ◌++◌, Option, some, none, is_some,
  if◌then◌else◌, ◌≡◌,
}
use m_svs.Std.Ord.{Ord, ◌==◌}
use m_svs.Names.{Name, Components}
use m_svs.Double.{Double, ℤ}
use m_svs.Core.State.{Core, Config}
use m_svs.Core.Start.{new_core}
use m_svs.Fetcher.Run.{initial}
use m_svs.Core.Handlers.{Env, get_seq_no, update_seq_no}
use m_svs.Fetcher.{Fetcher, express_interest}

pub record Data (K X : Type 0) : Type 0 where
  pub name : K
  pub content : X
  pub content_type : ℕ
  pub freshness_ms : ℕ
  pub final_block : Option ℕ

-- What an Interest asks for, as far as the code sets it.
pub record Interest (K : Type 0) : Type 0 where
  pub name : K
  pub can_be_prefix : Bool
  pub must_be_fresh : Bool
  pub lifetime_ms : ℕ

-- `DataStore`. The one that the library brings is ndn-cxx's persistent in-memory storage, which finds
-- only what an Interest matches, always finds something where it holds a match, and evicts nothing.
pub record DataStore (K X S : Type 0) : Type 0 where
  pub insert : Data K X → S → S
  pub find : Interest K → S → Option (Data K X)
  pub matches : Interest K → Data K X → Bool
  pub matches_name : (i : Interest K) (d : Data K X) → i.name ≡ d.name → matches i d ≡ true
  pub finds_match : (i : Interest K) (s : S) (d : Data K X) → find i s ≡ some d → matches i d ≡ true
  pub finds_new :
      (i : Interest K) (s : S) (d : Data K X)
      → matches i d ≡ true
      → is_some (find i (insert d s)) ≡ true
  pub finds_old :
      (i : Interest K) (s : S) (d : Data K X)
      → is_some (find i s) ≡ true
      → is_some (find i (insert d s)) ≡ true

-- `put` lists the packets given to the face, latest first. `cache_all` is the member of
-- SVSyncShared, and false in SVSync.
pub record SyncBase (K D X S T : Type 0) : Type 0 where
  pub sync_prefix : K
  pub data_prefix : K
  pub id : K
  pub n_retries_on_validation_fail : ℤ
  pub core : Core K D
  pub fetcher : Fetcher (Interest K × T)
  pub data_store : S
  pub put : List (Data K X)
  pub cache_all : Bool

-- ndn::tlv::Content and ndn::tlv::Data
abbrev pub content_tlv : ℕ
content_tlv = 21

abbrev pub data_tlv : ℕ
data_tlv = 6

module _ {K : Type 0} ⦃c : Components K⦄ where
  -- SVSync::getDataName
  unfoldable pub get_data_name : K → K → ℕ → K
  get_data_name sync_prefix nid seq_no = c.append_number seq_no (c.append nid sync_prefix)

  -- SVSyncShared::getDataName
  unfoldable pub get_shared_data_name : K → K → ℕ → K
  get_shared_data_name data_prefix nid seq_no = c.append_number seq_no (c.append data_prefix nid)

-- The Interest of `fetchData`, for the name of a publication. It need not be fresh.
unfoldable pub data_interest : {K : Type 0} → K → Interest K
data_interest name = record {
  name = name;
  can_be_prefix = true;
  must_be_fresh = false;
  lifetime_ms = 2000;
}

module _ {K D X S T : Type 0} where
  unfoldable pub put_found : Option (Data K X) → SyncBase K D X S T → SyncBase K D X S T
  put_found none b = b
  put_found (some packet) b = record b { put = packet ∷ b.put }

  unfoldable pub set_cache_all : Bool → SyncBase K D X S T → SyncBase K D X S T
  set_cache_all val b = record b { cache_all = val }

-- `naming` is the virtual getDataName, of the node and the number.
module _ {K D X S T : Type 0} ⦃o : Ord K⦄ ⦃n : Name K⦄ ⦃d : Double D⦄ ⦃store : DataStore K X S⦄
    (naming : K → ℕ → K) where
  unfoldable pub publisher : K → SyncBase K D X S T → K
  publisher id b = if id == n.empty then b.id else id

  unfoldable pub publish_data :
      (shuffle : ℕ → List K → List K)
      → Env
      → X
      → ℕ
      → K
      → ℕ
      → SyncBase K D X S T
      → SyncBase K D X S T × ℕ
  publish_data shuffle env content freshness_ms id content_type b =
      let pub_id = publisher id b in
      let new_seq = (get_seq_no pub_id b.core + 1) % 2 ^ 64 in
      let packet : Data K X = record {
        name = naming pub_id new_seq;
        content = content;
        content_type = content_type;
        freshness_ms = freshness_ms;
        final_block = none;
      } in
      (
        record b {
          data_store = store.insert packet b.data_store;
          core = update_seq_no shuffle env new_seq pub_id b.core;
          put = packet ∷ b.put;
        },
        new_seq,
      )

  unfoldable pub insert_data_segment :
      ⦃c : Components K⦄ → X → ℕ → K → ℕ → ℕ → ℕ → ℕ → SyncBase K D X S T → SyncBase K D X S T
  insert_data_segment ⦃c⦄ content freshness_ms nid seq seg_no final_block content_type b =
      let packet : Data K X = record {
        name = c.append_segment seg_no (c.append_version 0 (naming nid seq));
        content = content;
        content_type = content_type;
        freshness_ms = freshness_ms;
        final_block = some final_block;
      } in
      record b { data_store = store.insert packet b.data_store }

  unfoldable pub on_data_interest : Interest K → SyncBase K D X S T → SyncBase K D X S T
  on_data_interest interest b = put_found (store.find interest b.data_store) b

  unfoldable pub fetch_data : K → ℕ → T → ℤ → SyncBase K D X S T → SyncBase K D X S T
  fetch_data nid seq_no target n_retries b = record b {
    fetcher =
        express_interest b.n_retries_on_validation_fail (data_interest (naming nid seq_no), target)
          n_retries b.fetcher;
  }

  -- The callback that follows is the application's.
  unfoldable pub on_data_validated : Data K X → SyncBase K D X S T → SyncBase K D X S T
  on_data_validated packet b =
      if b.cache_all then record b { data_store = store.insert packet b.data_store } else b

module _ {K D X S T : Type 0} ⦃c : Components K⦄ ⦃d : Double D⦄ where
  -- The constructor; `config` and `fixed_interval` are what the core reads from the environment.
  unfoldable pub new_sync_base : K → K → K → ℤ → S → Config K D → ℕ → SyncBase K D X S T
  new_sync_base sync_prefix data_prefix id n_retries data_store config fixed_interval = record {
    sync_prefix = sync_prefix;
    data_prefix = data_prefix;
    id = id;
    n_retries_on_validation_fail = n_retries;
    core = new_core (record config { id = id }) fixed_interval;
    fetcher = initial;
    data_store = data_store;
    put = [];
    cache_all = false;
  }

  -- SVSync
  unfoldable pub new_svsync : K → K → ℤ → S → Config K D → ℕ → SyncBase K D X S T
  new_svsync sync_prefix node_prefix n_retries data_store config fixed_interval =
      new_sync_base sync_prefix (c.append node_prefix sync_prefix) node_prefix n_retries data_store
        config fixed_interval

  -- SVSyncShared; `s` and `d` are the names /s and /d.
  unfoldable pub new_svsync_shared : K → K → K → K → ℤ → S → Config K D → ℕ → SyncBase K D X S T
  new_svsync_shared s d grp_prefix id n_retries data_store config fixed_interval =
      new_sync_base (c.append grp_prefix s) (c.append grp_prefix d) id n_retries data_store config
        fixed_interval
