-- ===== src/Sync/Tests.antt =====
-- A node that publishes and fetches, with names of components.
use mathlib.Core.List
use m_svs.Base.{ℕ, ◌+◌, ◌%◌, ◌^◌, ◌≡◌, refl, true, List, [], ◌∷◌, none, if◌then◌else◌}
use m_svs.Std.Ord.{◌==◌}
use m_svs.Std.Map.{find}
use m_svs.Double.{pos}
use m_svs.VersionVector.{SubsetStrategy, get, empty}
use m_svs.Core.State.{TimerMode}
use m_svs.Core.Handlers.{get_seq_no}
use m_svs.Sync.{
  SyncBase, DataStore, data_interest, publisher, publish_data, on_data_interest, get_data_name,
  content_tlv, new_svsync, new_sync_base, put_found,
}
use m_svs.Sync.Naming.{get_data_name_injective}
use m_svs.Sync.Serving.{Event, run, publish_data_serves, publish_data_next}
use m_svs.Samples.{millionths, configured, node, instant}
use m_svs.Samples.Paths.{path_ord, paths, named_paths}
use m_svs.Samples.Store.{Packet, memory}

abbrev unshuffled : ℕ → List (List ℕ) → List (List ℕ)
unshuffled seed l = l

abbrev naming : List ℕ → ℕ → List ℕ
naming = get_data_name (9 ∷ [])

-- The node /4 of the group /9.
abbrev publishing : SyncBase (List ℕ) ℕ ℕ (List (Packet ℕ)) ℕ
publishing = record {
  sync_prefix = 9 ∷ [];
  data_prefix = 9 ∷ 4 ∷ [];
  id = 4 ∷ [];
  n_retries_on_validation_fail = pos 0;
  core = node (configured (4 ∷ []) SubsetStrategy.full TimerMode.fixed) empty;
  fetcher = record {
    interest_id_counter = 0;
    pending_interests = [];
    interest_queue = [];
    calls = [];
  };
  data_store = [];
  put = [];
  cache_all = true;
}

other_packet : Packet ℕ
other_packet = record {
  name = 1 ∷ 9 ∷ 5 ∷ [];
  content = 3;
  content_type = content_tlv;
  freshness_ms = 1000;
  final_block = none;
}

-- Node /4 publishes once more, and caches a packet of node /5.
abbrev later_events : List (Event (List ℕ) ℕ ℕ)
later_events =
    Event.publish (instant 2000) 8 1000 [] content_tlv
    ∷ Event.validated other_packet
    ∷ Event.data_asked (data_interest (naming (5 ∷ []) 1))
    ∷ []

publish_data_serves_example :
    let (published, seq) =
      publish_data naming unshuffled (instant 900) 7 1000 [] content_tlv publishing in
    let later = run naming unshuffled later_events published in
    let interest = data_interest (naming (publisher naming [] publishing) seq) in
    ((packet : Packet ℕ) × (on_data_interest naming interest later
        ≡ record later { put = packet ∷ later.put })
      × (DataStore.matches memory interest packet ≡ true))
publish_data_serves_example =
    publish_data_serves naming unshuffled (instant 900) 7 1000 [] content_tlv later_events
      publishing

publish_data_next_example :
    let (later, seq) =
      publish_data naming unshuffled (instant 900) 7 1000 [] content_tlv publishing in
    let nid = publisher naming [] publishing in
    ((seq ≡ (get_seq_no nid publishing.core + 1) % 2 ^ 64)
      × (get later.core.vv (4 ∷ [])
          ≡ (if nid == 4 ∷ [] then seq else get publishing.core.vv (4 ∷ [])))
      × (List.map (λ (p : Packet ℕ). p.name) later.put
          ≡ naming nid seq ∷ List.map (λ (p : Packet ℕ). p.name) publishing.put))
publish_data_next_example =
    publish_data_next naming unshuffled (instant 900) 7 1000 [] (4 ∷ []) content_tlv publishing refl

get_data_name_injective_example : (publishing.id ≡ 4 ∷ []) × (◌≡◌ {A = ℕ} 2 2)
unfolding get_data_name
get_data_name_injective_example = get_data_name_injective (9 ∷ []) (4 ∷ []) (4 ∷ []) 2 2 refl

-- Node /4 gets its own packet back by the Interest of `fetchData`.
served :
    List.map
      (λ (p : Packet ℕ). p.content)
      (on_data_interest naming
        (data_interest (naming (4 ∷ []) 1))
        (publish_data naming unshuffled (instant 900) 7 1000 [] content_tlv publishing).0).put
    ≡ 7 ∷ 7 ∷ []
unfolding get_data_name publish_data on_data_interest put_found data_interest publisher get_seq_no
    get find
served = refl

new_names :
    (new_svsync {X = ℕ} {S = List (Packet ℕ)} {T = ℕ}
      (9 ∷ [])
      (4 ∷ [])
      (pos 0)
      []
      publishing.core.config
      0).data_prefix
    ≡ publishing.data_prefix
unfolding new_svsync new_sync_base
new_names = refl
