-- ===== src/Server/App/Start/Unserved.antt =====
-- server/app.go and client/cmd/root.go: a server and a client whose settings do not enable OIDC.
use tiny_file_watcher.Server.App.Start.{App}
