-- ===== src/Event/Dispatcher/Order.antt =====
-- Which handlers are called, and in which order.
use mathlib.Core.List.{append-nil, append_assoc}
use robosw.Base.{
  ℕ, ◌≡◌, refl, ap, ap₂, sym, ◌∙◌, arith, true, false, List, [], ◌∷◌, ◌++◌, if◌then◌else◌, subst,
  Option,
}
use robosw.Event.Dispatcher.{
  Event, HandlerFunc, Handlers, eqb_string, register_handler, find_handlers, call_each, dispatch,
}

pub eqb_string_refl : (s : List ℕ) → eqb_string s s ≡ true
unfolding eqb_string
eqb_string_refl [] = refl
eqb_string_refl (x ∷ xs) = ground (arith, eqb_string_refl xs)

pub eqb_string-eq : (s t : List ℕ) → eqb_string s t ≡ true → s ≡ t
unfolding eqb_string
eqb_string-eq [] [] h = refl
eqb_string-eq [] (y ∷ ys) h = absurd (ground (arith, h))
eqb_string-eq (x ∷ xs) [] h = absurd (ground (arith, h))
eqb_string-eq (x ∷ xs) (y ∷ ys) h =
    ap₂ ◌∷◌ (ground (arith, h)) (eqb_string-eq xs ys (ground (arith, h)))

-- The test of a name does not tell equal names apart.
eqb_string-false :
    (s t u : List ℕ) → eqb_string s t ≡ false → eqb_string t u ≡ true → eqb_string s u ≡ false
eqb_string-false s t u h k = subst (λ x. eqb_string s x ≡ false) (eqb_string-eq t u k) h

module _ {H : Type 0} where
  -- A handler is added behind those of its name, and no other name is affected.
  pub find_handlers-register_handler :
      (hs : Handlers H) (name other : List ℕ) (handler : H)
      → find_handlers (register_handler hs name handler) other ≡ (
          if eqb_string name other
          then find_handlers hs other ++ handler ∷ []
          else find_handlers hs other)
  unfolding register_handler find_handlers
  find_handlers-register_handler [] name other handler = refl
  find_handlers-register_handler ((key, old) ∷ es) name other handler = ground (
    arith,
    find_handlers-register_handler es name other handler,
    eqb_string-eq key name,
    eqb_string_refl key,
    eqb_string-false key name other,
  )

  abbrev pub register_all : Handlers H → List (List ℕ × H) → Handlers H
  register_all hs [] = hs
  register_all hs (r ∷ rs) = register_all (register_handler hs r.0 r.1) rs

  -- The handlers registered for a name, in the order of registration.
  abbrev pub registered : List (List ℕ × H) → List ℕ → List H
  registered [] name = []
  registered (r ∷ rs) name =
      let later = registered rs name in if eqb_string r.0 name then r.1 ∷ later else later

  find_handlers-register_all :
      (rs : List (List ℕ × H)) (hs : Handlers H) (name : List ℕ)
      → find_handlers (register_all hs rs) name ≡ find_handlers hs name ++ registered rs name
  find_handlers-register_all [] hs name = sym (append-nil (find_handlers hs name))
  find_handlers-register_all (r ∷ rs) hs name = ground (
    arith,
    find_handlers-register_all rs (register_handler hs r.0 r.1) name,
    find_handlers-register_handler hs r.0 name r.1,
    append_assoc (find_handlers hs name) (r.1 ∷ []) (registered rs name),
  )

  no_handlers : (name : List ℕ) → find_handlers {H = H} [] name ≡ []
  unfolding find_handlers
  no_handlers name = refl

module _ {Data World : Type 0} where
  -- After any registrations, `Dispatch` of an event calls the handlers that were registered for its
  -- name, each once and in the order of registration, and no other.
  pub dispatch-register_all :
      (rs : List (List ℕ × HandlerFunc Data World)) (event : Event Data) (w : World)
      → dispatch (register_all [] rs) (Option.some event) w
        ≡ call_each (registered rs event.name) event w
  unfolding dispatch
  dispatch-register_all rs event w =
      ap (λ hs. call_each hs event w)
        (find_handlers-register_all rs [] event.name
          ∙ ap (λ hs. hs ++ registered rs event.name) (no_handlers event.name))
