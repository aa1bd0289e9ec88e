-- ===== src/Responses/Protocol/Texts/Created.antt =====
-- The first announcement of the response and what a later call of ensureStreamCreated keeps
use llmrelay_service.Base.{
  ◌≡◌, refl, sym, ap, subst, true, Text, ℤ, Props, Bool-cases, inl, inr, if_true, if_false,
}
use llmrelay_service.Responses.Stream.{
  Stream, identify, announce as announce_created, ensure_created, skeleton,
}
use llmrelay_service.Responses.Protocol.{create}
use llmrelay_service.Responses.Protocol.Shape.{IsFresh, IsIdle, IsBusy, IsLive, idle, busy}

module _ (number_text : ℤ → Text) (uuid : Text) where
  identify-busy :
      (s : Stream) (chunk : Props) → IsBusy s → IsBusy (identify number_text uuid s chunk)
  unfolding identify
  identify-busy s chunk h = record {
    closed = h.closed;
    kind = h.kind;
    id = h.id;
    text = h.text;
    is_created = h.is_created;
    items_are = h.items_are;
    active_is = h.active_is;
    sent = h.sent;
  }

  identify-IsIdle :
      (s : Stream) (chunk : Props) → IsIdle s → IsIdle (identify number_text uuid s chunk)
  unfolding identify
  identify-IsIdle s chunk h = record {
    is_created = h.is_created;
    no_items = h.no_items;
    no_active = h.no_active;
    sent = h.sent;
  }

  identify-IsFresh :
      (s : Stream) (chunk : Props) → IsFresh s → IsFresh (identify number_text uuid s chunk)
  unfolding identify
  identify-IsFresh s chunk h = record {
    not_created = h.not_created;
    no_items = h.no_items;
    no_active = h.no_active;
    nothing_sent = h.nothing_sent;
  }

  announce_again : (s : Stream) → s.created ≡ true → announce_created number_text uuid s ≡ s
  unfolding announce_created
  announce_again s e = if_true s.created _ _ e

  announce_first : (s : Stream) → IsFresh s → IsIdle (announce_created number_text uuid s)
  unfolding announce_created skeleton
  announce_first s h = subst IsIdle (sym (if_false s.created _ _ h.not_created)) (record {
    is_created = refl;
    no_items = h.no_items;
    no_active = h.no_active;
    sent = rw h.nothing_sent (_, create refl refl, refl);
  })

  -- The first call announces the response; a later one only notes the identity.
  pub ensure_created-fresh :
      (s : Stream) (chunk : Props) → IsFresh s → IsIdle (ensure_created number_text uuid s chunk)
  unfolding ensure_created
  ensure_created-fresh s chunk h = announce_first _ (identify-IsFresh s chunk h)

  pub ensure_created-IsIdle :
      (s : Stream) (chunk : Props) → IsIdle s → IsIdle (ensure_created number_text uuid s chunk)
  unfolding ensure_created
  ensure_created-IsIdle s chunk h =
      let i = identify-IsIdle s chunk h in subst IsIdle (sym (announce_again _ i.is_created)) i

  pub ensure_created-busy :
      (s : Stream) (chunk : Props) → IsBusy s → IsBusy (ensure_created number_text uuid s chunk)
  unfolding ensure_created
  ensure_created-busy s chunk h =
      let b = identify-busy s chunk h in subst IsBusy (sym (announce_again _ b.is_created)) b

  pub ensure_created-items :
      (s : Stream) (chunk : Props) → (ensure_created number_text uuid s chunk).items ≡ s.items
  unfolding ensure_created identify announce_created
  ensure_created-items s chunk = elim (Bool-cases s.created) [
    | inl e ↦ ap (λ (t : Stream). t.items) (if_true s.created _ _ e)
    | inr e ↦ ap (λ (t : Stream). t.items) (if_false s.created _ _ e)
  ]

  pub ensure_created-IsLive :
      (s : Stream) (chunk : Props) → IsLive s → IsLive (ensure_created number_text uuid s chunk)
  ensure_created-IsLive s chunk (idle h) = idle (ensure_created-IsIdle s chunk h)
  ensure_created-IsLive s chunk (busy b) = busy (ensure_created-busy s chunk b)
