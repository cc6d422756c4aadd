-- ===== src/Sync/Serving.antt =====
-- What a node has published it serves, whatever it does later.
use mathlib.Core.List
use m_svs.Base.{
  ℕ, ◌+◌, ◌%◌, ◌^◌, ◌≡◌, refl, true, List, [], ◌∷◌, Option, some, none, is_some, if_cases, arith,
  if◌then◌else◌,
}
use m_svs.Std.Ord.{Ord, ◌==◌}
use m_svs.Names.{Name, Components}
use m_svs.Double.{Double, ℤ}
use m_svs.VersionVector.{VersionVector, get}
use m_svs.Core.Handlers.{Env, get_seq_no, on_sync_interest_validated, retx_sync_interest}
use m_svs.Core.Handlers.Progress.{get-update_seq_no}
use m_svs.Sync.{
  Data, Interest, DataStore, SyncBase, data_interest, publisher, put_found, publish_data,
  insert_data_segment, on_data_interest, fetch_data, on_data_validated,
}

-- What may happen at a node, with the arguments of the member function that it calls.
pub data Event (K X T : Type 0) : Type 0 where
  publish : Env → X → ℕ → K → ℕ → Event K X T
  insert_segment : X → ℕ → K → ℕ → ℕ → ℕ → ℕ → Event K X T
  data_asked : Interest K → Event K X T
  fetch : K → ℕ → T → ℤ → Event K X T
  validated : Data K X → Event K X T
  sync_interest : Env → ℕ → Option (VersionVector K) → Event K X T
  timer : Env → Event K X T

module _ {K D X S T : Type 0} ⦃o : Ord K⦄ ⦃n : Name K⦄ ⦃c : Components K⦄ ⦃d : Double D⦄
    ⦃store : DataStore K X S⦄ (naming : K → ℕ → K) (shuffle : ℕ → List K → List K) where
  unfoldable pub handle : Event K X T → SyncBase K D X S T → SyncBase K D X S T
  handle (Event.publish env content fresh id type) b =
      (publish_data naming shuffle env content fresh id type b).0
  handle (Event.insert_segment content fresh nid seq seg_no final type) b =
      insert_data_segment naming content fresh nid seq seg_no final type b
  handle (Event.data_asked interest) b = on_data_interest naming interest b
  handle (Event.fetch nid seq target retries) b = fetch_data naming nid seq target retries b
  handle (Event.validated packet) b = on_data_validated naming packet b
  handle (Event.sync_interest env face received) b = record b {
    core = (on_sync_interest_validated shuffle env face received b.core).0;
  }
  handle (Event.timer env) b = record b { core = retx_sync_interest shuffle env true 0 b.core }

  unfoldable pub run : List (Event K X T) → SyncBase K D X S T → SyncBase K D X S T
  run [] b = b
  run (e ∷ rest) b = run rest (handle e b)

  abbrev pub Holds : Interest K → SyncBase K D X S T → Type 0
  Holds i b = is_some (store.find i b.data_store) ≡ true

  put_found-Holds :
      (i : Interest K) (found : Option (Data K X)) (b : SyncBase K D X S T)
      → Holds i b
      → Holds i (put_found found b)
  unfolding put_found
  put_found-Holds i none b h = h
  put_found-Holds i (some packet) b h = h

  handle-Holds :
      (i : Interest K) (e : Event K X T) (b : SyncBase K D X S T) → Holds i b → Holds i (handle e b)
  unfolding handle publish_data insert_data_segment on_data_interest fetch_data on_data_validated
  handle-Holds i (Event.publish env content fresh id type) b h = store.finds_old i _ _ h
  handle-Holds i (Event.insert_segment content fresh nid seq seg_no final type) b h =
      store.finds_old i _ _ h
  handle-Holds i (Event.data_asked interest) b h =
      put_found-Holds i (store.find interest b.data_store) b h
  handle-Holds i (Event.fetch nid seq target retries) b h = h
  handle-Holds i (Event.validated packet) b h =
      if_cases (Holds i) b.cache_all (λ _. store.finds_old i _ _ h) (λ _. h)
  handle-Holds i (Event.sync_interest env face received) b h = h
  handle-Holds i (Event.timer env) b h = h

  run-Holds :
      (i : Interest K) (l : List (Event K X T)) (b : SyncBase K D X S T)
      → Holds i b
      → Holds i (run l b)
  unfolding run
  run-Holds i [] b h = h
  run-Holds i (e ∷ rest) b h = run-Holds i rest (handle e b) (handle-Holds i e b h)

  abbrev Answer : Interest K → Option (Data K X) → SyncBase K D X S T → Type 0
  Answer i found b =
      (packet : Data K X) × (put_found found b ≡ record b { put = packet ∷ b.put })
      × (store.matches i packet ≡ true)

  answers_from :
      (i : Interest K) (found : Option (Data K X)) (b : SyncBase K D X S T)
      → store.find i b.data_store ≡ found
      → is_some found ≡ true
      → Answer i found b
  unfolding put_found
  answers_from i none b e h = ground arith
  answers_from i (some packet) b e h = (packet, refl, store.finds_match i b.data_store packet e)

  -- The Interest that `fetchData` makes for a publication is answered by the node that published it,
  -- with a packet that matches it, after any sequence of events at that node.
  pub publish_data_serves :
      (env : Env) (content : X) (fresh : ℕ) (id : K) (type : ℕ) (l : List (Event K X T))
      (b : SyncBase K D X S T)
      → let (published, seq) = publish_data naming shuffle env content fresh id type b in
        let later = run l published in
        let interest = data_interest (naming (publisher naming id b) seq) in
        ((packet : Data K X) × (on_data_interest naming interest later
            ≡ record later { put = packet ∷ later.put })
          × (store.matches interest packet ≡ true))
  unfolding on_data_interest publish_data data_interest
  publish_data_serves env content fresh id type l b =
      let (published, seq) = publish_data naming shuffle env content fresh id type b in
      let interest = data_interest (naming (publisher naming id b) seq) in
      let later = run l published in
      answers_from interest (store.find interest later.data_store) later refl (
        run-Holds interest l published
          (store.finds_new interest b.data_store _ (store.matches_name interest _ refl)))

  -- `publishData` gives the next number of the node, in 64 bits, and sets that number for the node and
  -- no other one; the packet goes to the face under the name of that publication. The node is that of
  -- the core where the base and the core agree.
  pub publish_data_next :
      (env : Env) (content : X) (fresh : ℕ) (id k : K) (type : ℕ) (b : SyncBase K D X S T)
      → b.core.id ≡ b.id
      → let (later, seq) = publish_data naming shuffle env content fresh id type b in
        let nid = publisher naming id b in
        ((seq ≡ (get_seq_no nid b.core + 1) % 2 ^ 64)
          × (get later.core.vv k ≡ (if nid == k then seq else get b.core.vv k))
          × (List.map (λ (p : Data K X). p.name) later.put
              ≡ naming nid seq ∷ List.map (λ (p : Data K X). p.name) b.put))
  unfolding publish_data publisher
  publish_data_next env content fresh id k type b same =
      let nid = publisher naming id b in
      let seq = (get_seq_no nid b.core + 1) % 2 ^ 64 in
      (
        refl,
        ground (
          arith,
          get-update_seq_no shuffle env seq nid k b.core,
          o.beq_iff id n.empty,
          o.beq_iff b.id n.empty,
        ),
        refl,
      )
