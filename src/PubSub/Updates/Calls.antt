-- ===== src/PubSub/Updates/Calls.antt =====
-- Reading mappings that are known calls nothing.
use m_svs.Base.{
  ℕ, zero, suc, ◌≡◌, refl, ◌∙◌, subst, Bool, true, false, List, [], ◌∷◌, Option, some, none,
  Option-cases, inl, inr, if_cases,
}
use m_svs.Std.Ord.{Ord}
use m_svs.Names.{Components}
use m_svs.Mapping.{MappingEntryPair}
use m_svs.PubSub.State.{Subscription, SvsPubSub, PubSubCall}
use m_svs.PubSub.Blocks.{Timestamps}
use m_svs.PubSub.Fetching.{queue_publication, queue_matching}
use m_svs.PubSub.Updates.{queue_young, process_entry, process_mapping, process_known}

module _ {K B A : Type 0} ⦃o : Ord K⦄ where
  calls-queue_matching :
      (matches : K → Bool) (p : K × ℕ) (subs : List (Subscription K)) (s : SvsPubSub K B A)
      → (queue_matching matches p subs s).0.calls ≡ s.calls
  unfolding queue_matching queue_publication
  calls-queue_matching matches p [] s = refl
  calls-queue_matching matches p (sub ∷ rest) s =
      calls-queue_matching matches p rest _
      ∙ if_cases (λ (t : SvsPubSub K B A). t.calls ≡ s.calls) (matches sub.prefix) (λ _. refl)
          (λ _. refl)

module _ {K B A : Type 0} ⦃o : Ord K⦄ ⦃c : Components K⦄ ⦃t : Timestamps B⦄ where
  abbrev Calls : List (PubSubCall K A) → Option (SvsPubSub K B A × Bool) → Type 0
  Calls l none = Unit {0}
  Calls l (some (after, queued)) = after.calls ≡ l

  calls-queue_young :
      (p : K × ℕ) (name : K) (old : Option Bool) (s : SvsPubSub K B A)
      → Calls s.calls (queue_young p name old s)
  unfolding queue_young
  calls-queue_young p name none s = tt
  calls-queue_young p name (some true) s = refl
  calls-queue_young p name (some false) s = calls-queue_matching _ p s.prefix_subscriptions s

  calls-process_entry :
      (now_us : ℕ) (p : K × ℕ) (known : Option (MappingEntryPair K B)) (s : SvsPubSub K B A)
      → Calls s.calls (process_entry now_us p known s)
  unfolding process_entry
  calls-process_entry now_us p none s = tt
  calls-process_entry now_us p (some (name, blocks)) s = calls-queue_young p name _ s

  pub calls-process_known :
      (now_us : ℕ) (node_id : K) (low rounds : ℕ) (s : SvsPubSub K B A)
      → (process_known now_us node_id low rounds s).0.calls ≡ s.calls
  unfolding process_known
  calls-process_known now_us node_id low zero s = refl
  calls-process_known now_us node_id low (suc rounds) s =
      elim (Option-cases (process_mapping now_us node_id low s)) [
        | inl e ↦ rw (process_known, e) refl
        | inr ((after, queued), e) ↦
            rw (process_known, e)
              (calls-process_known now_us node_id (suc low) rounds after
                ∙ subst (Calls s.calls) e
                    (unfold process_mapping in calls-process_entry now_us (node_id, low) _ s))
      ]
