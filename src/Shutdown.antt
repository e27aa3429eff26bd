-- ===== src/Shutdown.antt =====
-- How `run` of cmd/mcp-media-proxy/main.go and of cmd/media-sidecar/main.go ends: the select between
-- the context and the channel of errors, and the shutdown of the servers.
use mcp_media.Prelude.{
  ◌≡◌, refl, ◌↔◌, Bool, true, false, List, [], ◌∷◌, ◌++◌, All, if◌then◌else◌, arith, ℕ,
}
use mcp_media.Names.{String}

-- What the select got: the end of the context, or the error of a server's ListenAndServe that is not
-- ErrServerClosed.
pub data Ended : Type 0 where
  cancelled : Ended
  died : String → Ended

pub data ServeError : Type 0 where
  server_failed shutdown_failed : String → ServeError

unfoldable pub run_error : Ended → List ServeError
run_error cancelled = []
run_error (died name) = server_failed name ∷ []

-- Each server is shut down, whether or not another one could be.
unfoldable pub shutdown_errors : List (String × Bool) → List ServeError
shutdown_errors [] = []
shutdown_errors ((name, graceful) ∷ servers) =
    (if graceful then [] else shutdown_failed name ∷ []) ++ shutdown_errors servers

-- The joined errors; none is no error. The servers are given with whether their shutdown was graceful.
unfoldable pub serve_until : Ended → List (String × Bool) → List ServeError
serve_until ended servers = run_error ended ++ shutdown_errors servers

abbrev pub exit_code : List ServeError → ℕ
exit_code [] = 0
exit_code (e ∷ es) = 1

abbrev pub IsGraceful : String × Bool → Type 0
IsGraceful (name, graceful) = graceful ≡ true

shutdown_errors_iff :
    (servers : List (String × Bool)) → (shutdown_errors servers ≡ []) ↔ All IsGraceful servers
unfolding shutdown_errors
shutdown_errors_iff [] = ((λ h. tt), (λ h. refl))
shutdown_errors_iff ((name, true) ∷ servers) =
    let (there, back) = shutdown_errors_iff servers in ((λ h. (refl, there h)), (λ (_, h). back h))
shutdown_errors_iff ((name, false) ∷ servers) = ((λ h. cc), (λ (h, _). cc))

exit_code_iff : (errors : List ServeError) → (exit_code errors ≡ 0) ↔ (errors ≡ [])
exit_code_iff [] = ((λ h. refl), (λ h. refl))
exit_code_iff (e ∷ es) = ((λ h. absurd (omega arith)), (λ h. cc))

-- The program ends with code 0 exactly if it was told to end and every server shut down gracefully.
pub serve_until_iff :
    (ended : Ended) (servers : List (String × Bool))
    → (exit_code (serve_until ended servers) ≡ 0) ↔ ((ended ≡ cancelled) × All IsGraceful servers)
unfolding serve_until run_error
serve_until_iff cancelled servers =
    let (there, back) = shutdown_errors_iff servers in
    let (empty, none_left) = exit_code_iff (shutdown_errors servers) in
    ((λ h. (refl, there (empty h))), (λ (_, graceful). none_left (back graceful)))
serve_until_iff (died name) servers = ((λ h. absurd (omega arith)), (λ (h, _). cc))
