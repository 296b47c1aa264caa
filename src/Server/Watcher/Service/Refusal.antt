-- ===== src/Server/Watcher/Service/Refusal.antt =====
-- server/watcher/service.go: SyncWatcher and StreamSyncWatcher while a sync of the watcher runs.
