-- ===== src/Services/Auth/Renewal.antt =====
-- Refreshing with the token of a login (backend/app/services/auth_service.py).
use chatterbox.Repositories.Users
