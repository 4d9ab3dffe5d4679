-- ===== src/Transport/Service/Transparent.antt =====
-- crates/igra/src/transport.rs: what a transport that was built with IGRA mode off does.
use igra_foundry_sdk.Prelude.{◌≡◌, refl, false, none, some, ok, ◌>>=◌, List, [], ◌∷◌, Result}
use igra_foundry_sdk.Prelude.Text.{Text}
use igra_foundry_sdk.Store.Db.{Db}
use igra_foundry_sdk.Store.Lifecycle.{IgraStore}
use igra_foundry_sdk.Store.Open.{IgraStoreConfig}
use igra_foundry_sdk.Transport.Route.{WireCrates, RequestPacket, route}
use igra_foundry_sdk.Transport.Tracked.{SendWorld, start}
use igra_foundry_sdk.Transport.Service.{
  IgraTransportConfig, Submitter, IgraTransport, new, with_transport_config, with_submitter,
  with_store_config, try_with_store_config, fill_endpoints, replied, follow, request,
}

-- A call of a builder.
pub data Builder : Type 0 where
  transport_config : IgraTransportConfig → Builder
  submitter : Submitter → Builder
  store_config : IgraStoreConfig → Result Text IgraStore → Builder
  try_store_config : IgraStoreConfig → Result Text IgraStore → Builder

module _ {Reply : Type 0} where
  abbrev build : Builder → IgraTransport Reply → Result Text (IgraTransport Reply)
  build (transport_config config) self = ok (with_transport_config config self)
  build (submitter s) self = ok (with_submitter s self)
  build (store_config config opened) self = ok (with_store_config config opened self)
  build (try_store_config config opened) self = try_with_store_config config opened self

  abbrev pub built : List Builder → IgraTransport Reply → Result Text (IgraTransport Reply)
  built [] self = ok self
  built (b ∷ bs) self = build b self >>= built bs

  -- IGRA mode is off, there is no store, and the wrapped transport is `inner`.
  pub record IsOff (inner : RequestPacket → Result Text Reply) (self : IgraTransport Reply)
      : Type 0 where
    pub off : self.enabled ≡ false
    pub storeless : self.settings.store ≡ none
    pub wraps : self.inner ≡ inner

  abbrev Keeps : (RequestPacket → Result Text Reply) → Result Text (IgraTransport Reply) → Type 0
  Keeps inner r = (t : IgraTransport Reply) × ((r ≡ ok t) × IsOff inner t)

  build-IsOff :
      (b : Builder) (inner : RequestPacket → Result Text Reply) (self : IgraTransport Reply)
      → IsOff inner self
      → Keeps inner (build b self)
  unfolding with_transport_config with_submitter with_store_config try_with_store_config
      fill_endpoints
  build-IsOff (transport_config config) inner self h =
      (_, (refl, record { off = h.off; storeless = h.storeless; wraps = h.wraps }))
  build-IsOff (submitter s) inner self h =
      (_, (refl, record { off = h.off; storeless = h.storeless; wraps = h.wraps }))
  build-IsOff (store_config config opened) inner self h =
      (_, (refl, record { off = h.off; storeless = rw (h.off) h.storeless; wraps = h.wraps }))
  build-IsOff (try_store_config config opened) inner self h = (
    record self { settings = fill_endpoints config self.settings },
    (rw (h.off), record { off = h.off; storeless = h.storeless; wraps = h.wraps }),
  )

  built-IsOff :
      (bs : List Builder) (inner : RequestPacket → Result Text Reply) (self : IgraTransport Reply)
      → IsOff inner self
      → Keeps inner (built bs self)
  built-IsOff [] inner self h = (self, (refl, h))
  built-IsOff (b ∷ bs) inner self h =
      let (t, (e, k)) = build-IsOff b inner self h in rw e (built-IsOff bs inner t k)

  request-IsOff :
      (inner : RequestPacket → Result Text Reply) (self : IgraTransport Reply) (crates : WireCrates)
      (w : SendWorld) (correlation_id : Text) (packet : RequestPacket) (db : Db)
      → IsOff inner self
      → request self crates w correlation_id packet db ≡ some (replied (inner packet), start db)
  unfolding request follow route
  request-IsOff inner self crates w correlation_id packet db h = rw (h.off, h.wraps)

  -- With IGRA mode off the transport is transparent: whatever builders are called in whatever order,
  -- each of them succeeds and no store is opened; and each request then goes to the wrapped
  -- transport as it is, its answer comes back, and the tables are not touched.
  pub disabled_is_transparent :
      (inner : RequestPacket → Result Text Reply) (in_process : Submitter) (bs : List Builder)
      (crates : WireCrates) (w : SendWorld) (correlation_id : Text) (packet : RequestPacket)
      (db : Db)
      → (t : IgraTransport Reply) × ((built bs (new inner false in_process) ≡ ok t)
          × (t.settings.store ≡ none)
          × (request t crates w correlation_id packet db ≡ some (replied (inner packet), start db)))
  unfolding new
  disabled_is_transparent inner in_process bs crates w correlation_id packet db =
      let self = new inner false in_process in
      let (t, (e, h)) =
        built-IsOff bs inner self (record { off = refl; storeless = refl; wraps = refl }) in
      (t, (e, h.storeless, request-IsOff inner t crates w correlation_id packet db h))
