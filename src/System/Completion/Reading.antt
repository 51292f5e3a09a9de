-- ===== src/System/Completion/Reading.antt =====
-- store.go, scanMessages: the claimed rows as messages, where each can be read.
use mathlib.Core.Path.{subst}
use go_messaging.Prelude.{
  ◌≡◌, refl, ap, sym, ◌∙◌, Bool, true, false, Option, none, some, List, [], ◌∷◌, map, Bytes, All,
  Bool-cases, inl, inr,
}
use go_messaging.Message.{Message, Headers}
use go_messaging.Cipher.{Result, ok, err}
use go_messaging.Database.{HotRow, Tables, pure, lift, ◌>>=◌}
use go_messaging.Database.Total.{
  Ran, Runs, Runs-pure, Runs-bind, Runs-wrapping, Runs-lift, Runs-db_call,
}
use go_messaging.Store.{Store, HeaderCodec}
use go_messaging.Store.Scan.{
  Labels, message_labels, message_of, hydrate, hydrate_plain, hydrated_or, set_headers, settle,
  scan_message_row, scan_messages,
}
use go_messaging.System.Completion.Loop.{CanOpen, ids_of}

-- `hydrate` reads the row without an error.
abbrev pub IsReadable : Store → HotRow → Type 0
IsReadable s r = (msg : Message) × (hydrate s (message_of r) ≡ (ok tt, msg))

-- What hydrate leaves of a message.
Same : Message → Message → Type 0
Same m m' = (m'.message_id ≡ m.message_id) × (m'.encrypted ≡ m.encrypted)

set_headers-Same : (l : Labels) (m : Message) (o : Option Headers) → Same m (set_headers l m o).1
unfolding Same set_headers
set_headers-Same l m none = (refl, refl)
set_headers-Same l m (some hs) = (refl, refl)

settle-Same :
    (c : HeaderCodec) (l : Labels) (m : Message) (r : Result (Bytes × Option Bytes))
    → Same m (settle c l m r).1
unfolding Same settle
settle-Same c l m (err e) = (refl, refl)
settle-Same c l m (ok (p, none)) = (refl, refl)
settle-Same c l m (ok (p, some h)) =
    unfold Same in set_headers-Same l (record m { payload = p; raw_headers = none }) (c.unmarshal h)

hydrate-Same : (s : Store) (m m' : Message) → hydrate s m ≡ (ok tt, m') → Same m m'
unfolding hydrate
hydrate-Same s m m' e =
    subst (λ (x : Result (Unit {0}) × Message). Same m x.1) e
      (settle-Same s.codec (message_labels m.message_id) m _)

module _ (s : Store) (m : Message) where
  hydrate_plain-encrypted : m.encrypted ≡ true → hydrate_plain s m ≡ ok m
  unfolding hydrate_plain
  hydrate_plain-encrypted e = simp e refl

  hydrate_plain-plain : m.encrypted ≡ false → hydrate_plain s m ≡ hydrated_or (hydrate s m)
  unfolding hydrate_plain
  hydrate_plain-plain e = simp e refl

-- A message with the id, which can be opened.
abbrev IsOf : Store → Bytes → Message → Type 0
IsOf s id m = (m.message_id ≡ id) × CanOpen s m

read-IsOf :
    (s : Store) (m m' : Message)
    → hydrate s m ≡ (ok tt, m')
    → (m'' : Message) × (hydrate_plain s m ≡ ok m'') × IsOf s m.message_id m''
unfolding Same
read-IsOf s m m' e =
    let (named, kept) = hydrate-Same s m m' e in
    elim (Bool-cases m.encrypted) [
      | inl encrypted ↦ (m, hydrate_plain-encrypted s m encrypted, (refl, λ h. (m', e, named)))
      | inr plain ↦ (
        m',
        hydrate_plain-plain s m plain ∙ ap hydrated_or e ∙ unfold hydrated_or in refl,
        (named, λ h. absurd (not_both m'.encrypted h (kept ∙ plain))),
      )
    ]
  where
    not_both : (b : Bool) → b ≡ true → b ≡ false → ⊥
    not_both b h k = cc

abbrev row_key : HotRow → Bytes
row_key r = r.message_id

-- What the scan gives: a message for each row, in order, each of which can be opened.
unfoldable pub AreRead : Store → List HotRow → List Message → Type 0
AreRead s rows ms = (ids_of ms ≡ map row_key rows) × All (CanOpen s) ms

module _ (s : Store) (P : Tables → Type 0) where
  scan_row-Runs : (r : HotRow) → Runs P (λ m t. (m ≡ message_of r) × P t) (scan_message_row r)
  unfolding scan_message_row
  scan_row-Runs r =
      Runs-bind _ _ (Runs-wrapping _ _ Runs-db_call) (λ u. Runs-pure _ (λ t h. (refl, h)))

  add-AreRead :
      (r : HotRow) (rs : List HotRow) (m : Message) (ms : List Message)
      → IsOf s r.message_id m
      → AreRead s rs ms
      → AreRead s (r ∷ rs) (m ∷ ms)
  unfolding AreRead
  add-AreRead r rs m ms (named, opens) (ids, all) = (rw (named, ids) refl, (opens, all))

pub scan_messages-Runs :
    (s : Store) (P : Tables → Type 0) (rows : List HotRow)
    → All (IsReadable s) rows
    → Runs P (λ ms t. AreRead s rows ms × P t) (scan_messages s rows)
unfolding scan_messages message_of
scan_messages-Runs s P [] h =
    Runs-bind _ _ Runs-db_call (λ u. Runs-pure _ (λ t k. (unfold AreRead in (refl, tt), k)))
scan_messages-Runs s P (r ∷ rs) h =
    let (m', e) = h.0 in
    let (m, read, is_of) = read-IsOf s (message_of r) m' e in
    Runs-bind _ _ (scan_row-Runs s P r) (λ row. record {
      at = λ w f k.
          subst
            (λ row.
              Ran (λ ms t. AreRead s (r ∷ rs) ms × P t)
                ((lift (hydrate_plain s row) >>= λ first.
                    scan_messages s rs >>= λ ms. pure (first ∷ ms))
                  w))
            (sym k.0)
            ((Runs-bind {R = λ first t. (first ≡ m) × P t} _ _
                (Runs-lift m _ read (λ t q. (refl, q)))
                (λ first.
                  Runs-bind _ _ (scan_messages-Runs s (λ t. (first ≡ m) × P t) rs h.1) (λ ms.
                    Runs-pure _ (λ t q. (
                      subst (λ first. AreRead s (r ∷ rs) (first ∷ ms)) (sym q.1.0)
                          (add-AreRead s P r rs m ms is_of q.0),
                      q.1.1,
                    ))))).at
              w f k.1);
    })
