-- ===== src/Auth/Renewal.antt =====
-- client/token_provider.go and auth/store.go: what a refresh asks for and leaves in the store.
use fngo.Prelude.{
  ◌==◌, string_eq, String, false, Bool-cases, inl, inr, ◌≡◌, refl, Option, none, some,
}
use fngo.Transport.Types.{Reply, value, failure}
use fngo.Auth.{
  TokenSet, TokenStore, load, save, Oauth, refresh_unlocked, saved, refresh_current, refresh,
}

module _ {W : Type 0} where
  -- the account service gave new tokens for the stored refresh token, and they are in the store
  pub record IsRenewed (oauth : Oauth W) (s : TokenStore) (w : W) (s' : TokenStore) (w' : W)
      : Type 0 where
    pub current : TokenSet
    pub next : TokenSet
    pub stored : load s ≡ some current
    pub usable : (current.refresh_token == "") ≡ false
    pub by_refresh : String → W → Reply TokenSet × W
    pub client : oauth ≡ some by_refresh
    pub granted : by_refresh current.refresh_token w ≡ (value next, w')
    pub kept : load s' ≡ some next

  -- what a refresh may return and leave: new tokens without an error, or an error and the old store
  abbrev pub Outcome : Oauth W → TokenStore → W → Option String × (TokenStore × W) → Type 0
  Outcome oauth s w (none, (s', w')) = IsRenewed oauth s w s' w'
  Outcome oauth s w (some m, (s', w')) = s' ≡ s

  saved-Outcome :
      (by_refresh : String → W → Reply TokenSet × W) (s : TokenStore) (w : W) (current : TokenSet)
      (r : Reply TokenSet × W)
      → load s ≡ some current
      → (current.refresh_token == "") ≡ false
      → by_refresh current.refresh_token w ≡ r
      → Outcome (some by_refresh) s w (saved s r)
  unfolding save load
  saved-Outcome by_refresh s w current (failure m, w') h u g = refl
  saved-Outcome by_refresh s w current (value next, w') h u g = record {
    current = current;
    next = next;
    stored = h;
    usable = u;
    by_refresh = by_refresh;
    client = refl;
    granted = g;
    kept = refl;
  }

  unlocked-Outcome :
      (oauth : Oauth W) (s : TokenStore) (w : W) (current : TokenSet)
      → load s ≡ some current
      → (current.refresh_token == "") ≡ false
      → Outcome oauth s w (saved s (refresh_unlocked oauth current w))
  unfolding refresh_unlocked
  unlocked-Outcome none s w current h u = refl
  unlocked-Outcome (some by_refresh) s w current h u =
      saved-Outcome by_refresh s w current (by_refresh current.refresh_token w) h u refl

  current-Outcome :
      (oauth : Oauth W) (s : TokenStore) (w : W) (o : Option TokenSet)
      → load s ≡ o
      → Outcome oauth s w (refresh_current oauth s o w)
  current-Outcome oauth s w none h = refl
  current-Outcome oauth s w (some current) h = elim (Bool-cases (current.refresh_token == "")) [
    | inl b ↦ rw b refl
    | inr b ↦ rw b (unlocked-Outcome oauth s w current h b)
  ]

  -- A refresh that returns no error has sent the stored refresh token, which is not empty, to the
  -- account service, and the tokens that it answered are in the store; one that returns an error
  -- leaves the store as it was.
  pub refresh-Outcome :
      (oauth : Oauth W) (s : TokenStore) (w : W) → Outcome oauth s w (refresh oauth (s, w))
  unfolding refresh
  refresh-Outcome oauth s w = current-Outcome oauth s w (load s) refl
